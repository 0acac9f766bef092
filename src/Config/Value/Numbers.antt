-- ===== src/Config/Value/Numbers.antt =====
-- strtoul_hu on decimal texts.
use Prim.Native.Nat.{min}
use native.Mathlib.Nat.{pow-suc}
use kfmon.Prelude.{
  ℕ, ◌+◌, ◌-◌, ◌*◌, ◌^◌, ◌≡◌, refl, true, false, none, some, [], ◌∷◌, CString, if◌then◌else◌, arith,
  ltb, length, All, ◌∙◌, ap, sym,
}
use kfmon.Config.Value.{
  strtoul_hu, strtoul, read_digits, is_digit, contains, skip_spaces, skip_plus, is_space,
  starts_with_digit, check_strtoul, shrt_max,
}

-- The number that decimal digits stand for, by the weights of their places.
abbrev pub value : CString → ℕ
value [] = 0
value (c ∷ s) = (c - b'0') * 10 ^ length s + value s

abbrev pub IsDigits : CString → Type 0
IsDigits = All (λ c. is_digit c ≡ true)

horner : (acc d p v : ℕ) → (acc * 10 + d) * p + v ≡ acc * (p * 10) + (d * p + v)
horner acc d p v = omega arith

read_digits-value :
    (acc : ℕ) (s : CString) → IsDigits s → read_digits acc s ≡ (acc * 10 ^ length s + value s, [])
unfolding read_digits
read_digits-value acc [] h = ground arith
read_digits-value acc (c ∷ s) h = rw h.0 (
    read_digits-value (acc * 10 + (c - b'0')) s h.1
    ∙ ap (λ n. (n, []))
        (horner acc (c - b'0') (10 ^ length s) (value s)
          ∙ ap (λ p. acc * p + value (c ∷ s)) (sym (pow-suc 10 (length s)))))

contains-digits : (s : CString) → IsDigits s → contains b'-' s ≡ false
unfolding contains is_digit
contains-digits [] h = refl
contains-digits (c ∷ s) h = ground (arith, contains-digits s h.1, h.0)

-- A text of digits alone is read whole.
skip-digits :
    (c : ℕ) (s : CString)
    → is_digit c ≡ true
    → (skip_plus (skip_spaces (c ∷ s)) ≡ c ∷ s) × (starts_with_digit (c ∷ s) ≡ true)
unfolding skip_spaces skip_plus is_space is_digit starts_with_digit
skip-digits c s h = (ground arith, ground arith)

read_all : (s : CString) → IsDigits s → read_digits 0 s ≡ (value s, [])
read_all s h = read_digits-value 0 s h ∙ ap (λ n. (n, [])) (omega arith)

strtoul-digits :
    (c : ℕ) (s : CString)
    → IsDigits (c ∷ s)
    → strtoul (c ∷ s) ≡ (
        if ltb (value (c ∷ s)) (2 ^ 32)
        then record { val = value (c ∷ s); endptr = []; moved = true; erange = false }
        else record { val = 2 ^ 32 - 1; endptr = []; moved = true; erange = true })
unfolding strtoul
strtoul-digits c s h = let e = skip-digits c s h.0 in rw (e.0, e.1, read_all (c ∷ s) h)

clamp-check :
    (n : ℕ)
    → check_strtoul (
        if ltb n (2 ^ 32)
        then record { val = n; endptr = []; moved = true; erange = false }
        else record { val = 2 ^ 32 - 1; endptr = []; moved = true; erange = true })
      ≡ (if ltb n (2 ^ 32) then some (min n shrt_max) else none)
unfolding check_strtoul
clamp-check n = ground arith

-- A text of decimal digits is read as the number that it stands for, clamped to SHRT_MAX, if that
-- number fits 32 bits; a larger one is refused.
pub strtoul_hu-value :
    (c : ℕ) (s : CString)
    → IsDigits (c ∷ s)
    → strtoul_hu (c ∷ s)
      ≡ (if ltb (value (c ∷ s)) (2 ^ 32) then some (min (value (c ∷ s)) shrt_max) else none)
unfolding strtoul_hu
strtoul_hu-value c s h =
    rw (contains-digits (c ∷ s) h, strtoul-digits c s h) (clamp-check (value (c ∷ s)))
