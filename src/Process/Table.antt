-- ===== src/Process/Table.antt =====
-- The process table (struct process_table of kfmon.h) and its operations in kfmon.c.
use kfmon.Prelude.{
  ℕ, suc, Bool, true, false, not, ◌&&◌, none, some, List, [], ◌∷◌, Handle, same_handle, find_from,
  set, replicate, if◌then◌else◌,
}
use kfmon.Config.{WatchConfig, watch_max}

-- An entry of -1 (`none`) is available.
pub record ProcessTable : Type 0 where
  pub spawn_pids : List Handle
  pub spawn_watchids : List Handle

unfoldable pub init_process_table : ProcessTable
init_process_table = record {
  spawn_pids = replicate watch_max none;
  spawn_watchids = replicate watch_max none;
}

unfoldable pub get_next_available_pt_entry : ProcessTable → Handle
get_next_available_pt_entry pt = find_from (λ w. same_handle w none) 0 pt.spawn_watchids

unfoldable pub add_process_to_table : ProcessTable → ℕ → ℕ → ℕ → ProcessTable
add_process_to_table pt i pid watch_idx = record {
  spawn_pids = set pt.spawn_pids i (some pid);
  spawn_watchids = set pt.spawn_watchids i (some watch_idx);
}

unfoldable pub remove_process_from_table : ProcessTable → ℕ → ProcessTable
remove_process_from_table pt i = record {
  spawn_pids = set pt.spawn_pids i none;
  spawn_watchids = set pt.spawn_watchids i none;
}

-- The loop of `is_watch_already_spawned` over the watch indices of the table.
unfoldable pub holds : ℕ → List Handle → Bool
holds watch_idx [] = false
holds watch_idx (id ∷ ids) = if same_handle id (some watch_idx) then true else holds watch_idx ids

unfoldable pub is_watch_already_spawned : ProcessTable → ℕ → Bool
is_watch_already_spawned pt watch_idx = holds watch_idx pt.spawn_watchids

-- The inner loop of `is_blocker_running`: an active watch at that index that blocks spawns.
unfoldable pub blocks : Handle → ℕ → List WatchConfig → Bool
blocks id watch_idx [] = false
blocks id watch_idx (w ∷ ws) =
    if w.is_active && (same_handle id (some watch_idx) && w.block_spawns)
    then true
    else blocks id (suc watch_idx) ws

-- Its outer loop.
unfoldable pub any_blocks : List WatchConfig → List Handle → Bool
any_blocks ws [] = false
any_blocks ws (id ∷ ids) =
    if not (same_handle id none) && blocks id 0 ws then true else any_blocks ws ids

unfoldable pub is_blocker_running : ProcessTable → List WatchConfig → Bool
is_blocker_running pt ws = any_blocks ws pt.spawn_watchids

-- The loop of `get_spawn_pid_for_watch`, over both arrays at once.
unfoldable pub pid_for : ℕ → List Handle → List Handle → Handle
pid_for watch_idx [] pids = none
pid_for watch_idx (id ∷ ids) [] = none
pid_for watch_idx (id ∷ ids) (pid ∷ pids) =
    if same_handle id (some watch_idx) then pid else pid_for watch_idx ids pids

unfoldable pub get_spawn_pid_for_watch : ProcessTable → ℕ → Handle
get_spawn_pid_for_watch pt watch_idx = pid_for watch_idx pt.spawn_watchids pt.spawn_pids
