-- ===== src/Process/Occupancy.antt =====
-- Which watches occupy the process table: no watch twice, and so never more than there are slots.
use kfmon.Prelude.{
  ℕ, zero, suc, ◌<◌, ◌≤◌, ◌≡◌, ◌≢◌, refl, true, false, none, some, List, [], ◌∷◌, Handle,
  same_handle, ==_iff, find_from, set, length, if◌then◌else◌, arith, ◌==◌, All, Bool-cases, inl,
  inr,
}
use mathlib.Core.Path.{subst}
use kfmon.Process.Table.{holds}

-- No watch index stands twice in the table.
abbrev pub IsUnique : List Handle → Type 0
IsUnique [] = Unit {0}
IsUnique (none ∷ ids) = IsUnique ids
IsUnique (some w ∷ ids) = (holds w ids ≡ false) × IsUnique ids

-- Every index in the table is below `n`.
abbrev pub IsBelow : ℕ → List Handle → Type 0
IsBelow n [] = Unit {0}
IsBelow n (none ∷ ids) = IsBelow n ids
IsBelow n (some w ∷ ids) = (w < n) × IsBelow n ids

pub holds-set-none :
    (w i : ℕ) (ids : List Handle) → holds w ids ≡ false → holds w (set ids i none) ≡ false
unfolding holds
holds-set-none w i [] h = refl
holds-set-none w zero (id ∷ ids) h = ground arith
holds-set-none w (suc i) (id ∷ ids) h = ground (arith, holds-set-none w i ids)

pub holds-set_ne :
    (v w i : ℕ) (ids : List Handle)
    → v ≢ w
    → holds v ids ≡ false
    → holds v (set ids i (some w)) ≡ false
unfolding holds
holds-set_ne v w i [] n h = refl
holds-set_ne v w zero (id ∷ ids) n h = ground arith
holds-set_ne v w (suc i) (id ∷ ids) n h = ground (arith, holds-set_ne v w i ids n)

pub holds-set_self :
    (w i : ℕ) (ids : List Handle) → i < length ids → holds w (set ids i (some w)) ≡ true
unfolding holds
holds-set_self w i [] h = elim h [ ]
holds-set_self w zero (id ∷ ids) h = ground arith
holds-set_self w (suc i) (id ∷ ids) h = ground (arith, holds-set_self w i ids)

pub set-none-IsUnique : (i : ℕ) (ids : List Handle) → IsUnique ids → IsUnique (set ids i none)
set-none-IsUnique i [] u = tt
set-none-IsUnique zero (none ∷ ids) u = u
set-none-IsUnique zero (some w ∷ ids) u = u.1
set-none-IsUnique (suc i) (none ∷ ids) u = set-none-IsUnique i ids u
set-none-IsUnique (suc i) (some w ∷ ids) u =
    (holds-set-none w i ids u.0, set-none-IsUnique i ids u.1)

pub set-none-IsBelow : (n i : ℕ) (ids : List Handle) → IsBelow n ids → IsBelow n (set ids i none)
set-none-IsBelow n i [] u = tt
set-none-IsBelow n zero (none ∷ ids) u = u
set-none-IsBelow n zero (some w ∷ ids) u = u.1
set-none-IsBelow n (suc i) (none ∷ ids) u = set-none-IsBelow n i ids u
set-none-IsBelow n (suc i) (some w ∷ ids) u = (u.0, set-none-IsBelow n i ids u.1)

-- A watch that is not in the table may be put in any slot.
pub set-some-IsUnique :
    (w i : ℕ) (ids : List Handle)
    → holds w ids ≡ false
    → IsUnique ids
    → IsUnique (set ids i (some w))
unfolding holds
set-some-IsUnique w i [] h u = tt
set-some-IsUnique w zero (none ∷ ids) h u = (h, u)
set-some-IsUnique w zero (some v ∷ ids) h u = (ground arith, u.1)
set-some-IsUnique w (suc i) (none ∷ ids) h u = set-some-IsUnique w i ids h u
set-some-IsUnique w (suc i) (some v ∷ ids) h u =
    (holds-set_ne v w i ids (ground arith) u.0, set-some-IsUnique w i ids (ground arith) u.1)

pub set-some-IsBelow :
    (n w i : ℕ) (ids : List Handle) → w < n → IsBelow n ids → IsBelow n (set ids i (some w))
set-some-IsBelow n w i [] h u = tt
set-some-IsBelow n w zero (none ∷ ids) h u = (h, u)
set-some-IsBelow n w zero (some v ∷ ids) h u = (h, u.1)
set-some-IsBelow n w (suc i) (none ∷ ids) h u = set-some-IsBelow n w i ids h u
set-some-IsBelow n w (suc i) (some v ∷ ids) h u = (u.0, set-some-IsBelow n w i ids h u.1)

-- The table without the watch `w`, for counting.
without : ℕ → List Handle → List Handle
without w [] = []
without w (id ∷ ids) = if same_handle id (some w) then ids else id ∷ without w ids

length-without : (w : ℕ) (ids : List Handle) → length ids ≤ suc (length (without w ids))
unfolding without
length-without w [] = omega arith
length-without w (id ∷ ids) = ground (arith, length-without w ids)

holds-without :
    (v w : ℕ) (ids : List Handle) → holds v ids ≡ false → holds v (without w ids) ≡ false
unfolding holds without
holds-without v w [] h = refl
holds-without v w (id ∷ ids) h = ground (arith, holds-without v w ids)

without-IsUnique : (w : ℕ) (ids : List Handle) → IsUnique ids → IsUnique (without w ids)
unfolding without
without-IsUnique w [] u = tt
without-IsUnique w (none ∷ ids) u = without-IsUnique w ids u
without-IsUnique w (some v ∷ ids) u = elim (Bool-cases (v == w)) [
  | inl e ↦ rw e u.1
  | inr e ↦ rw e (holds-without v w ids u.0, without-IsUnique w ids u.1)
]

tighten-IsBelow :
    (n : ℕ) (ids : List Handle) → holds n ids ≡ false → IsBelow (suc n) ids → IsBelow n ids
unfolding holds
tighten-IsBelow n [] h b = tt
tighten-IsBelow n (none ∷ ids) h b = tighten-IsBelow n ids h b
tighten-IsBelow n (some v ∷ ids) h b = (ground arith, tighten-IsBelow n ids (ground arith) b.1)

-- Removing the largest index lowers the bound.
without-IsBelow :
    (n : ℕ) (ids : List Handle) → IsUnique ids → IsBelow (suc n) ids → IsBelow n (without n ids)
unfolding without
without-IsBelow n [] u b = tt
without-IsBelow n (none ∷ ids) u b = without-IsBelow n ids u b
without-IsBelow n (some v ∷ ids) u b = elim (Bool-cases (v == n)) [
  | inl e ↦
      rw e (tighten-IsBelow n ids (subst (λ k. holds k ids ≡ false) ((==_iff v n).0 e) u.0) b.1)
  | inr e ↦ rw e ((ground arith), without-IsBelow n ids u.1 b.1)
]

-- A table without available entries.
abbrev pub IsFull : List Handle → Type 0
IsFull = All (λ id. same_handle id none ≡ false)

without-IsFull : (w : ℕ) (ids : List Handle) → IsFull ids → IsFull (without w ids)
unfolding without
without-IsFull w [] f = tt
without-IsFull w (none ∷ ids) f = absurd (ground arith)
without-IsFull w (some v ∷ ids) f = elim (Bool-cases (v == w)) [
  | inl e ↦ rw e f.1
  | inr e ↦ rw e (refl, without-IsFull w ids f.1)
]

-- The pigeonhole: a full table of distinct watch indices below `n` has at most `n` slots.
pub length-le_of_full :
    (n : ℕ) (ids : List Handle) → IsFull ids → IsUnique ids → IsBelow n ids → length ids ≤ n
length-le_of_full n [] f u b = omega arith
length-le_of_full n (none ∷ ids) f u b = absurd (ground arith)
length-le_of_full zero (some v ∷ ids) f u b = absurd (omega arith)
length-le_of_full (suc n) (some v ∷ ids) f u b =
    let rest = some v ∷ ids in
    omega (
      arith,
      length-without n rest,
      length-le_of_full n (without n rest) (without-IsFull n rest f) (without-IsUnique n rest u)
          (without-IsBelow n rest u b),
    )

pub find_from-IsFull :
    (from : ℕ) (ids : List Handle)
    → find_from (λ id. same_handle id none) from ids ≡ none
    → IsFull ids
find_from-IsFull from [] e = tt
find_from-IsFull from (none ∷ ids) e = absurd (ground arith)
find_from-IsFull from (some v ∷ ids) e = (refl, find_from-IsFull (suc from) ids e)

-- With room for every watch, a watch that is not in the table finds an available entry.
pub find_from-room :
    (w : ℕ) (ids : List Handle)
    → holds w ids ≡ false
    → IsUnique ids
    → IsBelow (length ids) ids
    → w < length ids
    → find_from (λ id. same_handle id none) 0 ids ≢ none
find_from-room w ids h u b lt e = absurd (
    omega (
      arith,
      length-le_of_full (length ids) (some w ∷ ids) (refl, find_from-IsFull 0 ids e) (h, u) (lt, b),
    ))
