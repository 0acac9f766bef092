-- ===== src/Processed/Munge.antt =====
-- The munging of a book's path, by where its last dot is.
use kfmon.Prelude.{
  ℕ, ◌≡◌, refl, ap, ◌∙◌, Bool, true, false, ◌||◌, Option, none, some, [], ◌∷◌, ◌++◌, map, CString,
  All, if◌then◌else◌, ◌==◌,
}
use kfmon.Processed.{is_invalid_char, replace_invalid_chars, split_ext, munge}

-- The characters that are not allowed in a file name on VFAT, with the space and the dot.
abbrev pub forbidden : CString
forbidden = b'.' ∷ b' ' ∷ b':' ∷ b'/' ∷ 92 ∷ b'*' ∷ b'<' ∷ b'>' ∷ 34 ∷ b'?' ∷ b'|' ∷ []

abbrev pub is_among : ℕ → CString → Bool
is_among c [] = false
is_among c (x ∷ []) = c == x
is_among c (x ∷ y ∷ xs) = c == x || is_among c (y ∷ xs)

-- An underscore for each of them.
abbrev pub underscored : CString → CString
underscored = map (λ c. if is_among c forbidden then b'_' else c)

or_assoc : (a b c : Bool) → ((a || b) || c) ≡ (a || (b || c))
or_assoc true b c = refl
or_assoc false b c = refl

is_invalid_char-is_among : (c : ℕ) → is_invalid_char c ≡ is_among c forbidden
unfolding is_invalid_char
is_invalid_char-is_among c = simp or_assoc refl

replace-underscored : (s : CString) → replace_invalid_chars s ≡ underscored s
unfolding replace_invalid_chars
replace-underscored [] = refl
replace-underscored (c ∷ s) =
    rw (is_invalid_char-is_among c)
      (ap (λ x. (if is_among c forbidden then b'_' else c) ∷ x) (replace-underscored s))

-- No dot.
abbrev pub IsDotless : CString → Type 0
IsDotless = All (λ c. (c == b'.') ≡ false)

-- The split of a text from that of its tail.
abbrev extend : ℕ → CString → CString × Option CString → CString × Option CString
extend c s p = elim p.1 [
  | some e ↦ (c ∷ p.0, some e)
  | none ↦ if c == b'.' then ([], some s) else (c ∷ p.0, none)
]

split_ext-dotless : (s : CString) → IsDotless s → split_ext s ≡ (s, none)
unfolding split_ext
split_ext-dotless [] h = refl
split_ext-dotless (c ∷ s) h = ap (extend c s) (split_ext-dotless s h.1) ∙ rw h.0 refl

split_ext-last :
    (base ext : CString) → IsDotless ext → split_ext (base ++ b'.' ∷ ext) ≡ (base, some ext)
unfolding split_ext
split_ext-last [] ext h = ap (extend b'.' ext) (split_ext-dotless ext h)
split_ext-last (c ∷ base) ext h = ap (extend c (base ++ b'.' ∷ ext)) (split_ext-last base ext h)

abbrev munged : ℕ → CString × Option CString → CString
munged d p = elim p.1 [
  | none ↦ replace_invalid_chars p.0
  | some e ↦ replace_invalid_chars p.0 ++ d ∷ e
]

-- The munging of a path for the thumbnails of firmware 5.x, with `d` for the dot before the extension:
-- what follows the last dot is left as it is, and in front of it an underscore replaces each dot, space
-- and character that is not allowed in a file name; in a path without a dot it does so throughout.
pub munge-last_dot :
    (d : ℕ) (base ext : CString)
    → IsDotless ext
    → (munge d (base ++ b'.' ∷ ext) ≡ underscored base ++ d ∷ ext) × (munge d ext ≡ underscored ext)
unfolding munge
munge-last_dot d base ext h = (
  ap (munged d) (split_ext-last base ext h) ∙ ap (λ x. x ++ d ∷ ext) (replace-underscored base),
  ap (munged d) (split_ext-dotless ext h) ∙ replace-underscored ext,
)
