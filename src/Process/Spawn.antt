-- ===== src/Process/Spawn.antt =====
-- `spawn` of kfmon.c as one call of the main thread, with what the system answers as arguments.
use kfmon.Prelude.{
  ℕ, ◌<◌, ◌≡◌, ◌≢◌, refl, true, false, Bool, none, some, Handle, arith, find_from_bounds,
  if◌then◌else◌, Outcome, returns, exits, length, Option-cases, inl, inr, List, [], ◌∷◌, suc, zero,
  set, length-set, sym, ◌∙◌,
}
use mathlib.Core.Path.{subst}
use kfmon.Config.{watch_max}
use kfmon.Process.Table.{
  ProcessTable, get_next_available_pt_entry, add_process_to_table, is_watch_already_spawned, holds,
  init_process_table, get_spawn_pid_for_watch, pid_for,
}
use kfmon.Process.Occupancy.{
  IsUnique, IsBelow, set-some-IsUnique, set-some-IsBelow, find_from-room, holds-set_self,
}

-- What the system answers: the child's pid, `none` if `fork` failed, and whether the thread argument
-- could be allocated and the reaper thread set up.
pub record Launch : Type 0 where
  pub fork_pid : Handle
  pub thread_ok : Bool

-- The entry found for the child, once there is one.
unfoldable pub register : Bool → ProcessTable → ℕ → ℕ → Handle → Outcome ProcessTable
register thread_ok pt pid watch_idx none = exits
register thread_ok pt pid watch_idx (some i) =
    if thread_ok then returns (add_process_to_table pt i pid watch_idx) else exits

-- The parent's side. (The child restores its descriptors and signals, and executes the command.)
unfoldable pub spawn_parent : Launch → ProcessTable → ℕ → Handle → Outcome ProcessTable
unfolding register
spawn_parent l pt watch_idx none = exits
spawn_parent l pt watch_idx (some pid) =
    register l.thread_ok pt pid watch_idx (get_next_available_pt_entry pt)

unfoldable pub spawn : Launch → ProcessTable → ℕ → Outcome ProcessTable
unfolding spawn_parent
spawn l pt watch_idx = spawn_parent l pt watch_idx l.fork_pid

-- The process table between two calls: sized, with distinct indices of watches.
pub record IsTable (pt : ProcessTable) : Type 0 where
  pub pids_sized : length pt.spawn_pids ≡ watch_max
  pub ids_sized : length pt.spawn_watchids ≡ watch_max
  pub unique : IsUnique pt.spawn_watchids
  pub below : IsBelow watch_max pt.spawn_watchids

pub init_process_table-IsTable : IsTable init_process_table
unfolding init_process_table
init_process_table-IsTable = record { pids_sized = refl; ids_sized = refl; unique = tt; below = tt }

pid_for-set :
    (w pid i : ℕ) (ids pids : List Handle)
    → holds w ids ≡ false
    → i < length ids
    → length ids ≡ length pids
    → pid_for w (set ids i (some w)) (set pids i (some pid)) ≡ some pid
unfolding holds pid_for
pid_for-set w pid i [] pids h lt e = absurd (omega arith)
pid_for-set w pid i (id ∷ ids) [] h lt e = absurd (omega arith)
pid_for-set w pid zero (id ∷ ids) (p ∷ pids) h lt e = ground arith
pid_for-set w pid (suc i) (id ∷ ids) (p ∷ pids) h lt e =
    ground (arith, pid_for-set w pid i ids pids)

pub add-IsTable :
    (pt : ProcessTable) (i pid w : ℕ)
    → w < watch_max
    → is_watch_already_spawned pt w ≡ false
    → IsTable pt
    → IsTable (add_process_to_table pt i pid w)
unfolding add_process_to_table is_watch_already_spawned
add-IsTable pt i pid w lt h v = record {
  pids_sized = length-set pt.spawn_pids i (some pid) ∙ v.pids_sized;
  ids_sized = length-set pt.spawn_watchids i (some w) ∙ v.ids_sized;
  unique = set-some-IsUnique w i pt.spawn_watchids h v.unique;
  below = set-some-IsBelow watch_max w i pt.spawn_watchids lt v.below;
}

-- A watch without a spawn finds an available entry.
pub entry_found :
    (pt : ProcessTable) (w : ℕ)
    → IsTable pt
    → w < watch_max
    → is_watch_already_spawned pt w ≡ false
    → (i : ℕ) × (get_next_available_pt_entry pt ≡ some i) × (i < length pt.spawn_watchids)
unfolding get_next_available_pt_entry is_watch_already_spawned
entry_found pt w v lt h = elim (Option-cases (get_next_available_pt_entry pt)) [
  | inl e ↦ absurd (
      find_from-room w pt.spawn_watchids h v.unique
        (subst (λ k. IsBelow k pt.spawn_watchids) (sym v.ids_sized) v.below)
        (omega (arith, v.ids_sized)) e)
  | inr (i, e) ↦ (i, e, omega (arith, find_from_bounds _ 0 pt.spawn_watchids i e))
]

-- What a spawn leaves in the table.
pub record Launched (pt : ProcessTable) (w pid : ℕ) (pt' : ProcessTable) : Type 0 where
  pub sound : IsTable pt'
  pub spawned : is_watch_already_spawned pt' w ≡ true
  pub tracked : get_spawn_pid_for_watch pt' w ≡ some pid

-- For a watch that has no spawn, over a well-formed table, and when the fork and the thread succeed:
-- `spawn` returns, the table stays well-formed, and the watch is found in it with the child's pid.
pub spawn-Launched :
    (pt : ProcessTable) (w pid : ℕ)
    → IsTable pt
    → w < watch_max
    → is_watch_already_spawned pt w ≡ false
    → (pt' : ProcessTable) × (spawn (record { fork_pid = some pid; thread_ok = true }) pt w
        ≡ returns pt')
      × Launched pt w pid pt'
unfolding spawn
spawn-Launched pt w pid v lt h =
    let (i, e, b) = entry_found pt w v lt h in
    (
      add_process_to_table pt i pid w,
      rw e,
      record {
        sound = add-IsTable pt i pid w lt h v;
        spawned =
            unfold is_watch_already_spawned add_process_to_table in
            holds-set_self w i pt.spawn_watchids b;
        tracked =
            unfold is_watch_already_spawned get_spawn_pid_for_watch add_process_to_table in
            pid_for-set w pid i pt.spawn_watchids pt.spawn_pids h b
              (omega (arith, v.ids_sized, v.pids_sized));
      },
    )

-- Whatever the system answers, a `spawn` that returns keeps the table well-formed, and then fork and
-- thread did succeed.
pub spawn-IsTable :
    (l : Launch) (pt pt' : ProcessTable) (w : ℕ)
    → IsTable pt
    → w < watch_max
    → is_watch_already_spawned pt w ≡ false
    → spawn l pt w ≡ returns pt'
    → IsTable pt' × (l.thread_ok ≡ true) × (l.fork_pid ≢ none)
unfolding spawn
spawn-IsTable l pt pt' w v lt h e = elim (Option-cases l.fork_pid) [
  | inl f ↦ absurd (ground arith)
  | inr (pid, f) ↦
      let (i, g, b) = entry_found pt w v lt h in
      (ground (arith, add-IsTable pt i pid w lt h v), ground arith, ground arith)
]
