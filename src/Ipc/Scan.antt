-- ===== src/Ipc/Scan.antt =====
-- What sscanf reads from the commands that name a watch.
use Prim.Native.Nat.{min}
use native.Mathlib.Nat.{pow-suc}
use kfmon.Prelude.{
  ℕ, zero, suc, ◌+◌, ◌-◌, ◌*◌, ◌/◌, ◌%◌, ◌^◌, ◌<◌, ◌≡◌, refl, sym, ap, ◌∙◌, Bool, true, false, some,
  [], ◌∷◌, ◌++◌, CString, arith, Bool-cases, inl, inr, length, All,
}
use mathlib.Core.Path.{subst}
use native.Mathlib.Decide.{dec_lt}
use kfmon.Config.Value.{is_digit, is_space, read_digits, skip_spaces, starts_with_digit}
use kfmon.Config.Value.Numbers.{value, IsDigits}
use kfmon.Processed.{decimal}
use kfmon.Ipc.Commands.{
  after_literal, narrow, scan_digits, scan_hhu, take_word, nonempty, scan_word,
}

pub after_literal-append : (text s : CString) → after_literal text (text ++ s) ≡ some s
unfolding after_literal
after_literal-append [] s = refl
after_literal-append (c ∷ text) s = ground (arith, after_literal-append text s)

horner : (acc d p v : ℕ) → (acc * 10 + d) * p + v ≡ acc * (p * 10) + (d * p + v)
horner acc d p v = omega arith

-- Digits are read up to the first character that is none.
read_digits-append :
    (acc : ℕ) (s rest : CString)
    → IsDigits s
    → starts_with_digit rest ≡ false
    → read_digits acc (s ++ rest) ≡ (acc * 10 ^ length s + value s, rest)
unfolding read_digits starts_with_digit
read_digits-append acc [] [] h e = ground arith
read_digits-append acc [] (c ∷ rest) h e = ground arith
read_digits-append acc (c ∷ s) rest h e = rw h.0 (
    read_digits-append (acc * 10 + (c - b'0')) s rest h.1 e
    ∙ ap (λ n. (n, rest))
        (horner acc (c - b'0') (10 ^ length s) (value s)
          ∙ ap (λ p. acc * p + value (c ∷ s)) (sym (pow-suc 10 (length s)))))

read_value :
    (s rest : CString)
    → IsDigits s
    → starts_with_digit rest ≡ false
    → read_digits 0 (s ++ rest) ≡ (value s, rest)
read_value s rest h e = read_digits-append 0 s rest h e ∙ ap (λ n. (n, rest)) (omega arith)

first_digit :
    (c : ℕ) (s : CString) → is_digit c ≡ true → scan_hhu (c ∷ s) ≡ scan_digits false (c ∷ s)
unfolding scan_hhu skip_spaces is_space is_digit
first_digit c s h = ground arith

scan_digits-narrow :
    (c : ℕ) (s : CString)
    → is_digit c ≡ true
    → scan_digits false (c ∷ s) ≡ some (narrow false (read_digits 0 (c ∷ s)).0)
unfolding scan_digits starts_with_digit
scan_digits-narrow c s h = rw h refl

narrow-min : (v : ℕ) → narrow false v ≡ min v (2 ^ 32 - 1) % 256
unfolding narrow
narrow-min v = ground arith

-- `%hhu` on digits: their value, held to 32 bits and then cut to eight.
pub scan_hhu-digits :
    (c : ℕ) (s rest : CString)
    → IsDigits (c ∷ s)
    → starts_with_digit rest ≡ false
    → scan_hhu (c ∷ s ++ rest) ≡ some (min (value (c ∷ s)) (2 ^ 32 - 1) % 256)
scan_hhu-digits c s rest h e =
    first_digit c (s ++ rest) h.0
    ∙ (scan_digits-narrow c (s ++ rest) h.0
        ∙ ap (λ n. some n)
            (ap (λ (r : ℕ × CString). narrow false r.0) (read_value (c ∷ s) rest h e)
              ∙ narrow-min (value (c ∷ s))))

record Decimal (i : ℕ) : Type 0 where
  first : ℕ
  others : CString
  text : decimal i ≡ first ∷ others
  digits : IsDigits (first ∷ others)
  same : value (first ∷ others) ≡ i

decimal_lem : (i : ℕ) → i < 1000 → Decimal i
unfolding decimal is_digit
decimal_lem i h = elim (dec_lt i 10) [
  | yes a ↦ record {
    first = b'0' + i % 10;
    others = [];
    text = ground arith;
    digits = (ground arith, tt);
    same = omega arith;
  }
  | no a ↦ elim (dec_lt i 100) [
    | yes b ↦ record {
      first = b'0' + i / 10 % 10;
      others = (b'0' + i % 10) ∷ [];
      text = ground arith;
      digits = (ground arith, (ground arith, tt));
      same = omega arith;
    }
    | no b ↦ record {
      first = b'0' + i / 100;
      others = (b'0' + i / 10 % 10) ∷ (b'0' + i % 10) ∷ [];
      text = ground arith;
      digits = (ground arith, (ground arith, (ground arith, tt)));
      same = omega arith;
    }
  ]
]

-- A printed index is read back.
pub scan_hhu-decimal :
    (i : ℕ) (rest : CString)
    → i < 256
    → starts_with_digit rest ≡ false
    → scan_hhu (decimal i ++ rest) ≡ some i
scan_hhu-decimal i rest h e =
    let d = decimal_lem i (omega arith) in
    ap (λ s. scan_hhu (s ++ rest)) d.text
    ∙ (scan_hhu-digits d.first d.others rest d.digits e
        ∙ ap (λ n. some n) (ap (λ n. min n (2 ^ 32 - 1) % 256) d.same ∙ omega arith))

-- A run of characters that are no white space, and the end of one.
abbrev pub IsWord : CString → Type 0
IsWord = All (λ c. is_space c ≡ false)

abbrev pub ends_word : CString → Bool
ends_word [] = true
ends_word (c ∷ s) = is_space c

take_word-append :
    (n : ℕ) (s rest : CString)
    → length s < n
    → IsWord s
    → ends_word rest ≡ true
    → take_word n (s ++ rest) ≡ s
unfolding take_word
take_word-append zero s rest h w e = elim h [ ]
take_word-append (suc n) [] [] h w e = refl
take_word-append (suc n) [] (c ∷ rest) h w e = ground arith
take_word-append (suc n) (c ∷ s) rest h w e =
    ground (arith, w.0, take_word-append n s rest (omega arith) w.1 e)

-- `%128s` on a word.
pub scan_word-append :
    (c : ℕ) (s rest : CString)
    → length (c ∷ s) < 128
    → IsWord (c ∷ s)
    → ends_word rest ≡ true
    → scan_word (c ∷ s ++ rest) ≡ some (c ∷ s)
unfolding scan_word skip_spaces
scan_word-append c s rest h w e =
    rw w.0 (ap nonempty (take_word-append 128 (c ∷ s) rest h w e) ∙ refl)

take_word-IsWord : (n : ℕ) (s : CString) → IsWord (take_word n s)
unfolding take_word
take_word-IsWord zero s = tt
take_word-IsWord (suc n) [] = tt
take_word-IsWord (suc n) (c ∷ s) = elim (Bool-cases (is_space c)) [
  | inl e ↦ rw e tt
  | inr e ↦ rw e (e, take_word-IsWord n s)
]

nonempty-eq : (s t : CString) → nonempty s ≡ some t → s ≡ t
unfolding nonempty
nonempty-eq [] t h = absurd (ground arith)
nonempty-eq (c ∷ s) t h = ground arith

-- What `%128s` assigns has no white space.
pub scan_word-IsWord : (s t : CString) → scan_word s ≡ some t → IsWord t
unfolding scan_word
scan_word-IsWord s t h =
    let w = take_word 128 (skip_spaces s) in
    subst IsWord (nonempty-eq w t h) (take_word-IsWord 128 (skip_spaces s))
