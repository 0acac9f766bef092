-- ===== src/Config/Value/Words.antt =====
-- strtobool against the list of words that it accepts.
use kfmon.Prelude.{
  ℕ, ◌≡◌, refl, true, false, Bool, ◌||◌, Option, none, some, [], ◌∷◌, CString, codes, IsCString,
  strcaseeq, to_lower, if◌then◌else◌, arith, ◌==◌, All, Bool-cases, ==_iff, inl, inr, sym, ◌∙◌,
}
use mathlib.Core.Path.{subst}
use kfmon.Config.Value.{strtobool, contains}

-- The words for true and for false, in any case.
unfoldable pub bool_word : CString → Option Bool
bool_word s =
    if strcaseeq s (codes "true")
      || strcaseeq s (codes "yes")
      || strcaseeq s (codes "1")
      || strcaseeq s (codes "on")
    then some true
    else if strcaseeq s (codes "false")
        || strcaseeq s (codes "no")
        || strcaseeq s (codes "0")
        || strcaseeq s (codes "off")
    then some false
    else none

-- Both sides at one first character.
abbrev Agree : ℕ → Type 0
Agree c = (s : CString) → IsCString s → strtobool (some (c ∷ s)) ≡ bool_word (c ∷ s)

Agree-t : Agree b't'
unfolding strtobool bool_word strcaseeq to_lower
Agree-t s h = ground arith

Agree-upper_t : Agree b'T'
unfolding strtobool bool_word strcaseeq to_lower
Agree-upper_t s h = ground arith

Agree-y : Agree b'y'
unfolding strtobool bool_word strcaseeq to_lower
Agree-y s h = ground arith

Agree-upper_y : Agree b'Y'
unfolding strtobool bool_word strcaseeq to_lower
Agree-upper_y s h = ground arith

Agree-f : Agree b'f'
unfolding strtobool bool_word strcaseeq to_lower
Agree-f s h = ground arith

Agree-upper_f : Agree b'F'
unfolding strtobool bool_word strcaseeq to_lower
Agree-upper_f s h = ground arith

Agree-1 : Agree b'1'
unfolding strtobool bool_word strcaseeq to_lower
Agree-1 [] h = refl
Agree-1 (d ∷ s) h = ground arith

Agree-0 : Agree b'0'
unfolding strtobool bool_word strcaseeq to_lower
Agree-0 [] h = refl
Agree-0 (d ∷ s) h = ground arith

Agree-n : Agree b'n'
unfolding strtobool bool_word strcaseeq to_lower
Agree-n [] h = refl
Agree-n (d ∷ []) h = ground arith
Agree-n (d ∷ e ∷ s) h = ground arith

Agree-upper_n : Agree b'N'
unfolding strtobool bool_word strcaseeq to_lower
Agree-upper_n [] h = refl
Agree-upper_n (d ∷ []) h = ground arith
Agree-upper_n (d ∷ e ∷ s) h = ground arith

Agree-o : Agree b'o'
unfolding strtobool bool_word strcaseeq to_lower
Agree-o [] h = refl
Agree-o (d ∷ []) h = ground arith
Agree-o (d ∷ e ∷ []) h = ground arith
Agree-o (d ∷ e ∷ f ∷ s) h = ground arith

Agree-upper_o : Agree b'O'
unfolding strtobool bool_word strcaseeq to_lower
Agree-upper_o [] h = refl
Agree-upper_o (d ∷ []) h = ground arith
Agree-upper_o (d ∷ e ∷ []) h = ground arith
Agree-upper_o (d ∷ e ∷ f ∷ s) h = ground arith

abbrev firsts : CString
firsts = codes "tTyYfF10nNoO"

Agree-firsts : All Agree firsts
Agree-firsts = assumption (
  Agree-t, Agree-upper_t, Agree-y, Agree-upper_y, Agree-f, Agree-upper_f, Agree-1, Agree-0, Agree-n,
  Agree-upper_n, Agree-o, Agree-upper_o,
)

All-contains {κ} : (P : ℕ → Type κ) (c : ℕ) (cs : CString) → All P cs → contains c cs ≡ true → P c
unfolding contains
All-contains P c [] a h = absurd (ground arith)
All-contains P c (d ∷ cs) a h = elim (Bool-cases (d == c)) [
  | inl e ↦ subst P ((==_iff d c).0 e) a.0
  | inr e ↦ All-contains P c cs a.1 (ground arith)
]

-- No word begins with another character.
miss :
    (c : ℕ) (s : CString)
    → (to_lower c == b't') ≡ false
    → (to_lower c == b'y') ≡ false
    → (to_lower c == b'1') ≡ false
    → (to_lower c == b'o') ≡ false
    → (to_lower c == b'f') ≡ false
    → (to_lower c == b'n') ≡ false
    → (to_lower c == b'0') ≡ false
    → bool_word (c ∷ s) ≡ none
unfolding bool_word strcaseeq to_lower
miss c s t y one o f n nil = rw (t, y, one, o, f, n, nil)

not_of : (c : ℕ) (s : CString) → contains c firsts ≡ false → strtobool (some (c ∷ s)) ≡ none
unfolding strtobool contains
not_of c s h = ground arith

Agree-other : (c : ℕ) → contains c firsts ≡ false → Agree c
unfolding strtobool contains to_lower
Agree-other c h s z =
    not_of c s h
    ∙ sym (
        miss c s (ground arith) (ground arith) (ground arith) (ground arith) (ground arith)
          (ground arith) (ground arith))

-- `strtobool` accepts exactly the words true, yes, 1, on and false, no, 0, off, in any mixture of
-- cases, with that meaning; any other text is refused.
pub strtobool-bool_word : (s : CString) → IsCString s → strtobool (some s) ≡ bool_word s
unfolding strtobool bool_word strcaseeq
strtobool-bool_word [] h = refl
strtobool-bool_word (c ∷ s) h = elim (Bool-cases (contains c firsts)) [
  | inl e ↦ All-contains Agree c firsts Agree-firsts e s h.1
  | inr e ↦ Agree-other c e s h.1
]
