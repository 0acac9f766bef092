-- ===== src/Prelude/CText.antt =====
-- C strings as lists of bytes without the final NUL, and what the program uses of the C library on
-- them: comparisons, GNU `basename`, `strtoul`.
use Prim.Native.Nat.{ℕ, ◌+◌}
use Prim.Native.Char.{code}
use Prim.Native.String.{String}
use mathlib.Core.Path.{◌≡◌}
use mathlib.Core.Logic.{◌↔◌, ◌≢◌}
use mathlib.Core.Bool.{Bool, true, false, ◌&&◌}
use mathlib.Core.List.{List, [], ◌∷◌}
use native.Mathlib.Omega.{arith}
use kfmon.Prelude.Tests.{if◌then◌else◌, ◌==◌, leb}
use kfmon.Prelude.Lists.{All, get_or}

abbrev pub CString : Type 0
CString = List ℕ

-- The bytes of an ASCII literal.
abbrev pub codes : String → CString
codes String.[] = []
codes (String.◌∷◌ c s) = code c ∷ codes s

-- No byte of a C string is the NUL that ends it.
abbrev pub IsCString : CString → Type 0
IsCString = All (λ c. c ≢ 0)

-- `s[i]`, at most one past the end, where the NUL is.
abbrev pub char_at : CString → ℕ → ℕ
char_at s i = get_or s i 0

-- `s[0] == '\0'`
abbrev pub is_blank : CString → Bool
is_blank [] = true
is_blank (c ∷ s) = false

-- `strcmp(a, b) == 0`
unfoldable pub streq : CString → CString → Bool
streq [] [] = true
streq [] (d ∷ b) = false
streq (c ∷ a) [] = false
streq (c ∷ a) (d ∷ b) = c == d && streq a b

pub streq_iff : (a b : CString) → (streq a b ≡ true) ↔ (a ≡ b)
unfolding streq
streq_iff [] [] = ground arith
streq_iff [] (d ∷ b) = ground arith
streq_iff (c ∷ a) [] = ground arith
streq_iff (c ∷ a) (d ∷ b) = ground (arith, streq_iff a b)

-- `tolower` in the C locale.
unfoldable pub to_lower : ℕ → ℕ
to_lower c = if leb b'A' c && leb c b'Z' then c + 32 else c

-- `strcasecmp(a, b) == 0`
unfoldable pub strcaseeq : CString → CString → Bool
strcaseeq [] [] = true
strcaseeq [] (d ∷ b) = false
strcaseeq (c ∷ a) [] = false
strcaseeq (c ∷ a) (d ∷ b) = to_lower c == to_lower d && strcaseeq a b

-- `strncmp(s, text, strlen(text)) == 0`
unfoldable pub has_prefix : CString → CString → Bool
has_prefix [] s = true
has_prefix (d ∷ text) [] = false
has_prefix (d ∷ text) (c ∷ s) = c == d && has_prefix text s

-- `strncasecmp(s, text, strlen(text)) == 0`
unfoldable pub has_prefix_case : CString → CString → Bool
has_prefix_case [] s = true
has_prefix_case (d ∷ text) [] = false
has_prefix_case (d ∷ text) (c ∷ s) = to_lower c == to_lower d && has_prefix_case text s

-- GNU `basename`: what follows the last slash, `best` being what follows the last one so far.
unfoldable pub after_slash : CString → CString → CString
after_slash best [] = best
after_slash best (c ∷ s) = after_slash (if c == b'/' then s else best) s

unfoldable pub basename : CString → CString
unfolding after_slash
basename s = after_slash s s
