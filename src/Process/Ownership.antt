-- ===== src/Process/Ownership.antt =====
-- The invariant of the interleaved system: distinct watches in the table, an available entry for the
-- spawn in progress, and one entry to each reaper.
use kfmon.Prelude.{
  ℕ, zero, suc, ◌<◌, ◌≡◌, ◌≢◌, refl, sym, false, none, some, List, [], ◌∷◌, Handle, get_elem?, set,
  length, get_elem?-set_ne, All, ◌+◌, ◌∙◌, find_from, same_handle, arith,
}
use kfmon.Config.{watch_max}
use kfmon.Process.Table.{ProcessTable, init_process_table, holds}
use kfmon.Process.Occupancy.{IsUnique, IsBelow, holds-set-none}
use kfmon.Process.System.{
  Main, idle, checked, forked, chosen, aborted, Reaper, started, waiting, System, initial,
}

abbrev pub slot_of : Reaper → ℕ
slot_of (started i) = i
slot_of (waiting i cpid watch_idx) = i

-- What a reaper has read is what its entry holds, and the entry is taken.
abbrev pub Owns : ProcessTable → Reaper → Type 0
Owns pt (started i) =
    (cpid : ℕ) × (w : ℕ) × (get_elem? pt.spawn_pids i ≡ some (some cpid))
    × (get_elem? pt.spawn_watchids i ≡ some (some w))
Owns pt (waiting i cpid watch_idx) =
    (get_elem? pt.spawn_pids i ≡ some cpid)
    × (get_elem? pt.spawn_watchids i ≡ some watch_idx)
    × (watch_idx ≢ none)

-- No two reapers have the same entry.
abbrev pub IsApart : List Reaper → Type 0
IsApart [] = Unit {0}
IsApart (r ∷ rs) = All (λ q. slot_of q ≢ slot_of r) rs × IsApart rs

-- What the main thread relies on until its spawn is in the table.
abbrev pub Pending : Main → List Handle → Type 0
Pending idle ids = Unit {0}
Pending (checked w) ids = (w < watch_max) × (holds w ids ≡ false)
Pending (forked w pid) ids = (w < watch_max) × (holds w ids ≡ false)
Pending (chosen w pid i) ids =
    (w < watch_max) × (holds w ids ≡ false) × (get_elem? ids i ≡ some none)
Pending aborted ids = ⊥

pub record Inv (s : System) : Type 0 where
  pub pids_sized : length s.table.spawn_pids ≡ watch_max
  pub ids_sized : length s.table.spawn_watchids ≡ watch_max
  pub unique : IsUnique s.table.spawn_watchids
  pub below : IsBelow watch_max s.table.spawn_watchids
  pub pending : Pending s.main s.table.spawn_watchids
  pub owned : All (Owns s.table) s.reapers
  pub apart : IsApart s.reapers

pub initial-Inv : Inv initial
unfolding init_process_table
initial-Inv = record {
  pids_sized = refl;
  ids_sized = refl;
  unique = tt;
  below = tt;
  pending = tt;
  owned = tt;
  apart = tt;
}

set-none-available :
    (ids : List Handle) (i j : ℕ)
    → get_elem? ids i ≡ some none
    → get_elem? (set ids j none) i ≡ some none
set-none-available [] i j e = e
set-none-available (id ∷ ids) zero zero e = refl
set-none-available (id ∷ ids) zero (suc j) e = e
set-none-available (id ∷ ids) (suc i) zero e = e
set-none-available (id ∷ ids) (suc i) (suc j) e = set-none-available ids i j e

-- The entry that the search returns is available.
pub find_from-available :
    (from i : ℕ) (ids : List Handle)
    → find_from (λ id. same_handle id none) from ids ≡ some i
    → (k : ℕ) × (i ≡ from + k) × (get_elem? ids k ≡ some none)
find_from-available from i [] e = absurd (ground arith)
find_from-available from i (none ∷ ids) e = (0, ground arith, refl)
find_from-available from i (some v ∷ ids) e =
    let (k, p, q) = find_from-available (suc from) i ids e in (suc k, omega arith, q)

pub Pending-set-none :
    (m : Main) (ids : List Handle) (j : ℕ) → Pending m ids → Pending m (set ids j none)
Pending-set-none idle ids j p = tt
Pending-set-none (checked w) ids j p = (p.0, holds-set-none w j ids p.1)
Pending-set-none (forked w pid) ids j p = (p.0, holds-set-none w j ids p.1)
Pending-set-none (chosen w pid i) ids j p =
    (p.0, holds-set-none w j ids p.1, set-none-available ids i j p.2)
Pending-set-none aborted ids j p = p

-- A write to another entry leaves a reaper's entry alone.
Owns-set :
    (pt : ProcessTable) (j : ℕ) (h k : Handle) (r : Reaper)
    → slot_of r ≢ j
    → Owns pt r
    → Owns
        (record { spawn_pids = set pt.spawn_pids j h; spawn_watchids = set pt.spawn_watchids j k })
        r
Owns-set pt j h k (started i) n (cpid, w, p, q) = (
  cpid,
  w,
  get_elem?-set_ne pt.spawn_pids j i h (λ e. n (sym e)) ∙ p,
  get_elem?-set_ne pt.spawn_watchids j i k (λ e. n (sym e)) ∙ q,
)
Owns-set pt j h k (waiting i cpid w) n (p, q, t) = (
  get_elem?-set_ne pt.spawn_pids j i h (λ e. n (sym e)) ∙ p,
  get_elem?-set_ne pt.spawn_watchids j i k (λ e. n (sym e)) ∙ q,
  t,
)

pub All-Owns-set :
    (pt : ProcessTable) (j : ℕ) (h k : Handle) (rs : List Reaper)
    → All (λ r. slot_of r ≢ j) rs
    → All (Owns pt) rs
    → All
        (Owns (record {
          spawn_pids = set pt.spawn_pids j h;
          spawn_watchids = set pt.spawn_watchids j k;
        }))
        rs
All-Owns-set pt j h k [] n o = tt
All-Owns-set pt j h k (r ∷ rs) n o = (Owns-set pt j h k r n.0 o.0, All-Owns-set pt j h k rs n.1 o.1)

-- A reaper's entry is taken, so no reaper has an available one.
Owns-ne_available :
    (pt : ProcessTable) (j : ℕ) (r : Reaper)
    → get_elem? pt.spawn_watchids j ≡ some none
    → Owns pt r
    → slot_of r ≢ j
Owns-ne_available pt j (started i) a (cpid, w, p, q) e = ground arith
Owns-ne_available pt j (waiting i cpid w) a (p, q, t) e = t (ground arith)

pub All-Owns-ne_available :
    (pt : ProcessTable) (j : ℕ) (rs : List Reaper)
    → get_elem? pt.spawn_watchids j ≡ some none
    → All (Owns pt) rs
    → All (λ r. slot_of r ≢ j) rs
All-Owns-ne_available pt j [] a o = tt
All-Owns-ne_available pt j (r ∷ rs) a o =
    (Owns-ne_available pt j r a o.0, All-Owns-ne_available pt j rs a o.1)
