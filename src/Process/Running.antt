-- ===== src/Process/Running.antt =====
-- The process table of kfmon.c as a map from watches to the pids of their processes.
use kfmon.Prelude.{
  ℕ, zero, suc, ◌≡◌, refl, true, false, none, some, is_none, List, [], ◌∷◌, Handle, ◌==◌, get_elem?,
  set, if◌then◌else◌, arith, not,
}
use kfmon.Process.Table.{holds, pid_for}
use kfmon.Process.Occupancy.{IsUnique}

-- A watch index stands with a pid, -1 with -1.
abbrev pub Paired : List Handle → List Handle → Type 0
Paired [] [] = Unit {0}
Paired [] (pid ∷ pids) = ⊥
Paired (id ∷ ids) [] = ⊥
Paired (id ∷ ids) (pid ∷ pids) = (is_none id ≡ is_none pid) × Paired ids pids

pub Paired-set :
    (ids pids : List Handle) (i : ℕ) (id pid : Handle)
    → is_none id ≡ is_none pid
    → Paired ids pids
    → Paired (set ids i id) (set pids i pid)
Paired-set [] [] i id pid e p = tt
Paired-set [] (y ∷ pids) i id pid e p = elim p [ ]
Paired-set (x ∷ ids) [] i id pid e p = elim p [ ]
Paired-set (x ∷ ids) (y ∷ pids) zero id pid e p = (e, p.1)
Paired-set (x ∷ ids) (y ∷ pids) (suc i) id pid e p = (p.0, Paired-set ids pids i id pid e p.1)

pub Paired-at :
    (ids pids : List Handle) (i : ℕ) (id pid : Handle)
    → Paired ids pids
    → get_elem? ids i ≡ some id
    → get_elem? pids i ≡ some pid
    → is_none id ≡ is_none pid
Paired-at [] pids i id pid p e f = absurd (ground arith)
Paired-at (x ∷ ids) [] i id pid p e f = absurd (ground arith)
Paired-at (x ∷ ids) (y ∷ pids) zero id pid p e f = ground (arith, p.0)
Paired-at (x ∷ ids) (y ∷ pids) (suc i) id pid p e f = Paired-at ids pids i id pid p.1 e f

-- A watch has a pid exactly when it stands in the table.
pub holds-pid_for :
    (w : ℕ) (ids pids : List Handle)
    → Paired ids pids
    → holds w ids ≡ not (is_none (pid_for w ids pids))
unfolding holds pid_for
holds-pid_for w [] pids p = refl
holds-pid_for w (x ∷ ids) [] p = elim p [ ]
holds-pid_for w (x ∷ ids) (y ∷ pids) p = ground (arith, holds-pid_for w ids pids p.1, p.0)

pub pid_for-none :
    (w : ℕ) (ids pids : List Handle) → holds w ids ≡ false → pid_for w ids pids ≡ none
unfolding holds pid_for
pid_for-none w [] pids h = refl
pid_for-none w (x ∷ ids) [] h = refl
pid_for-none w (x ∷ ids) (y ∷ pids) h = ground (arith, pid_for-none w ids pids)

pub holds-at : (w i : ℕ) (ids : List Handle) → get_elem? ids i ≡ some (some w) → holds w ids ≡ true
unfolding holds
holds-at w i [] e = absurd (ground arith)
holds-at w zero (x ∷ ids) e = ground arith
holds-at w (suc i) (x ∷ ids) e = ground (arith, holds-at w i ids e)

-- Where the table is written, only that watch's pid changes.
pub pid_for-add :
    (v w pid i : ℕ) (ids pids : List Handle)
    → Paired ids pids
    → get_elem? ids i ≡ some none
    → holds w ids ≡ false
    → pid_for v (set ids i (some w)) (set pids i (some pid))
      ≡ (if w == v then some pid else pid_for v ids pids)
unfolding holds pid_for
pid_for-add v w pid i [] pids p e h = absurd (ground arith)
pid_for-add v w pid i (x ∷ ids) [] p e h = elim p [ ]
pid_for-add v w pid zero (x ∷ ids) (y ∷ pids) p e h = ground arith
pid_for-add v w pid (suc i) (x ∷ ids) (y ∷ pids) p e h =
    ground (arith, pid_for-add v w pid i ids pids p.1 e)

pub pid_for-remove :
    (v w i : ℕ) (ids pids : List Handle)
    → Paired ids pids
    → IsUnique ids
    → get_elem? ids i ≡ some (some w)
    → pid_for v (set ids i none) (set pids i none) ≡ (if w == v then none else pid_for v ids pids)
unfolding holds pid_for
pid_for-remove v w i [] pids p u e = absurd (ground arith)
pid_for-remove v w i (x ∷ ids) [] p u e = elim p [ ]
pid_for-remove v w zero (none ∷ ids) (y ∷ pids) p u e = absurd (ground arith)
pid_for-remove v w zero (some x ∷ ids) (y ∷ pids) p u e =
    ground (arith, pid_for-none x ids pids, u.0)
pid_for-remove v w (suc i) (none ∷ ids) (y ∷ pids) p u e =
    ground (arith, pid_for-remove v w i ids pids p.1 u e)
pid_for-remove v w (suc i) (some x ∷ ids) (y ∷ pids) p u e =
    ground (arith, pid_for-remove v w i ids pids p.1 u.1 e, holds-at w i ids e, u.0)

pub pid_for-at :
    (w i : ℕ) (ids pids : List Handle) (pid : Handle)
    → IsUnique ids
    → get_elem? ids i ≡ some (some w)
    → get_elem? pids i ≡ some pid
    → pid_for w ids pids ≡ pid
unfolding holds pid_for
pid_for-at w i [] pids pid u e f = absurd (ground arith)
pid_for-at w i (x ∷ ids) [] pid u e f = absurd (ground arith)
pid_for-at w zero (x ∷ ids) (y ∷ pids) pid u e f = ground arith
pid_for-at w (suc i) (none ∷ ids) (y ∷ pids) pid u e f =
    ground (arith, pid_for-at w i ids pids pid u e f)
pid_for-at w (suc i) (some x ∷ ids) (y ∷ pids) pid u e f =
    ground (arith, pid_for-at w i ids pids pid u.1 e f, holds-at w i ids e, u.0)
