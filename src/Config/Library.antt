-- ===== src/Config/Library.antt =====
-- The two libraries that the configuration code calls, as parameters: str5cpy of the str5 library, and
-- ini_parse of inih (a git submodule). The laws state what their documentation promises.
use Prim.Native.Nat.{ℕ, zero, suc, ◌-◌, ◌≤◌, ◌<◌}
use kfmon.Prelude.{◌≡◌, Bool, true, false, [], ◌∷◌, CString, length}

abbrev pub take : ℕ → CString → CString
take zero s = []
take (suc n) [] = []
take (suc n) (c ∷ s) = c ∷ take n s

-- The `mode` argument.
pub data Mode : Type 0 where
  trunc notrunc : Mode

-- What str5cpy returns; the errors are negative.
pub data CopyStatus : Type 0 where
  oknotrunc oktrunc edstpar esrcpar emodpar etrunc : CopyStatus

-- `< 0`
abbrev pub is_error : CopyStatus → Bool
is_error oknotrunc = false
is_error oktrunc = false
is_error _ = true

-- str5cpy(dst, dstsize, src, nb, mode) as the text left in `dst` and the result.
abbrev pub Str5cpy : Type 0
Str5cpy = CString → ℕ → CString → ℕ → Mode → CString × CopyStatus

pub record Str5Laws (str5cpy : Str5cpy) : Type 0 where
  -- A text that fits is copied whole.
  pub fits :
      (dst src : CString) (size : ℕ) (mode : Mode)
      → length src < size
      → str5cpy dst size src size mode ≡ (src, oknotrunc)
  -- A longer one is refused, and the destination left alone, if truncation is not allowed.
  pub refused :
      (dst src : CString) (size : ℕ)
      → 0 < size
      → size ≤ length src
      → str5cpy dst size src size notrunc ≡ (dst, etrunc)
  -- Otherwise it is cut to leave room for the NUL.
  pub truncated :
      (dst src : CString) (size : ℕ)
      → 0 < size
      → size ≤ length src
      → str5cpy dst size src size trunc ≡ (take (size - 1) src, oktrunc)

-- A handler takes the user's structure, a section, a key and a value; it returns the structure as it
-- leaves it, and whether it returned non-zero.
abbrev pub Handler : Type 0 → Type 0
Handler S = S → CString → CString → CString → S × Bool

-- ini_parse(path, handler, user) as the structure that it leaves, and whether it returned 0.
pub record Inih : Type 1 where
  pub ini_parse : (S : Type 0) → CString → Handler S → S → S × Bool
  -- The structure is changed by calls of the handler only.
  pub by_handler :
      (S : Type 0) (P : S → Type 0) (path : CString) (handler : Handler S) (user : S)
      → ((s : S) (section key value : CString) → P s → P (handler s section key value).0)
      → P user
      → P (ini_parse S path handler user).0
