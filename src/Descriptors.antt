-- ===== src/Descriptors.antt =====
-- The open files of a process, by descriptor, and what dup, dup2, open and close make of them.
use kfmon.Prelude.{
  Bool, ℕ, zero, suc, ◌<◌, ◌≡◌, ◌≢◌, refl, ap, Option, none, some, List, [], ◌∷◌, Handle, get_or,
  arith, if◌then◌else◌, ◌==◌, ltb, ◌≤◌, Bool-cases, inl, inr,
}

-- An open file: one that was open from the start, /dev/null, or the log file (truncated or not).
pub data File : Type 0 where
  inherited : ℕ → File
  null : File
  log_file : Bool → File

abbrev pub Descriptors : Type 0
Descriptors = List (Option File)

abbrev pub get : Descriptors → ℕ → Option File
get fs i = get_or fs i none

-- A write past the end makes the table longer.
unfoldable pub put : Descriptors → ℕ → Option File → Descriptors
put [] zero o = o ∷ []
put [] (suc i) o = none ∷ put [] i o
put (x ∷ fs) zero o = o ∷ fs
put (x ∷ fs) (suc i) o = x ∷ put fs i o

-- The lowest descriptor that is not open.
unfoldable pub lowest : Descriptors → ℕ
lowest [] = 0
lowest (none ∷ fs) = 0
lowest (some f ∷ fs) = suc (lowest fs)

-- open(2), when it succeeds, and dup(2).
unfoldable pub open_file : Descriptors → File → Descriptors
open_file fs f = put fs (lowest fs) (some f)

abbrev pub dup_of : Descriptors → Option File → Descriptors × Handle
dup_of fs none = (fs, none)
dup_of fs (some f) = (open_file fs f, some (lowest fs))

unfoldable pub dup : Descriptors → ℕ → Descriptors × Handle
dup fs i = dup_of fs (get fs i)

abbrev pub dup2_of : Descriptors → Option File → ℕ → Descriptors
dup2_of fs none to = fs
dup2_of fs (some f) to = put fs to (some f)

unfoldable pub dup2 : Descriptors → Handle → ℕ → Descriptors
dup2 fs none to = fs
dup2 fs (some from) to = dup2_of fs (get fs from) to

unfoldable pub close : Descriptors → Handle → Descriptors
close fs none = fs
close fs (some i) = put fs i none

pub get-put :
    (fs : Descriptors) (i j : ℕ) (o : Option File)
    → get (put fs i o) j ≡ (if i == j then o else get fs j)
unfolding put
get-put [] zero zero o = refl
get-put [] zero (suc j) o = ground arith
get-put [] (suc i) zero o = ground arith
get-put [] (suc i) (suc j) o = ground (arith, get-put [] i j o)
get-put (x ∷ fs) zero zero o = refl
get-put (x ∷ fs) zero (suc j) o = ground arith
get-put (x ∷ fs) (suc i) zero o = ground arith
get-put (x ∷ fs) (suc i) (suc j) o = ground (arith, get-put fs i j o)

pub get-lowest : (fs : Descriptors) → get fs (lowest fs) ≡ none
unfolding lowest
get-lowest [] = refl
get-lowest (none ∷ fs) = refl
get-lowest (some f ∷ fs) = get-lowest fs

-- The first `n` descriptors are open.
abbrev pub IsFull : ℕ → Descriptors → Type 0
IsFull n fs = (k : ℕ) → k < n → get fs k ≢ none

pub lowest-IsFull : (n : ℕ) (fs : Descriptors) → IsFull n fs → n ≤ lowest fs
lowest-IsFull n fs h = elim (Bool-cases (ltb (lowest fs) n)) [
  | inl e ↦ absurd (h (lowest fs) (ground arith) (get-lowest fs))
  | inr e ↦ ground arith
]

pub get-dup2 :
    (fs : Descriptors) (i to j : ℕ) (f : File)
    → get fs i ≡ some f
    → get (dup2 fs (some i) to) j ≡ (if to == j then some f else get fs j)
unfolding dup2
get-dup2 fs i to j f e = rw (e, dup2_of) (get-put fs to j (some f))

pub get-open_file :
    (fs : Descriptors) (f : File) (j : ℕ)
    → get (open_file fs f) j ≡ (if lowest fs == j then some f else get fs j)
unfolding open_file
get-open_file fs f j = get-put fs (lowest fs) j (some f)

get-below_lowest : (fs : Descriptors) (k : ℕ) → k < lowest fs → get fs k ≢ none
unfolding lowest
get-below_lowest [] k h = absurd (omega arith)
get-below_lowest (none ∷ fs) k h = absurd (omega arith)
get-below_lowest (some f ∷ fs) zero h = ground arith
get-below_lowest (some f ∷ fs) (suc k) h = get-below_lowest fs k (omega arith)

pub put-IsFull :
    (n : ℕ) (fs : Descriptors) (i : ℕ) (f : File) → IsFull n fs → IsFull n (put fs i (some f))
put-IsFull n fs i f h k k<n = rw (get-put fs i k (some f)) (ground (arith, h k k<n))

pub open_file-IsFull :
    (n : ℕ) (fs : Descriptors) (f : File) → IsFull n fs → IsFull (suc n) (open_file fs f)
open_file-IsFull n fs f h k k<n =
    let n≤ = lowest-IsFull n fs h in
    rw (get-open_file fs f k) (elim (Bool-cases (lowest fs == k)) [
      | inl e ↦ rw e (ground arith)
      | inr e ↦ rw e (get-below_lowest fs k (ground arith))
    ])

pub lowest-open_file : (fs : Descriptors) (f : File) → lowest fs < lowest (open_file fs f)
lowest-open_file fs f =
    lowest-IsFull (suc (lowest fs)) (open_file fs f)
      (open_file-IsFull (lowest fs) fs f (get-below_lowest fs))

pub dup-lowest :
    (fs : Descriptors) (i : ℕ) (f : File)
    → get fs i ≡ some f
    → dup fs i ≡ (open_file fs f, some (lowest fs))
unfolding dup
dup-lowest fs i f e = ap (dup_of fs) e
