-- ===== src/Process/Tests.antt =====
-- Concrete runs of the process table and its threads.
use kfmon.Prelude.{
  Handle, ℕ, ◌≡◌, ◌≢◌, ◌↔◌, refl, true, false, none, some, List, [], ◌∷◌, ◌++◌, arith, get_or,
  get_elem?, set, returns, replicate, ◌>>=◌,
}
use kfmon.Config.{WatchConfig, watch_max, zero_watch}
use kfmon.Process.Table.{
  ProcessTable, init_process_table, get_next_available_pt_entry, get_spawn_pid_for_watch,
  add_process_to_table, remove_process_from_table, holds, any_blocks, blocks,
  is_watch_already_spawned, is_blocker_running,
}
use kfmon.Process.System.{
  idle, checked, forked, chosen, aborted, Reaper, started, waiting, System, check, fork, choose,
  add, begin, reap, Step, target, initial, Reach, here, next,
}
use kfmon.Process.Refine.{change, Possible, changed, running, IsPaired, Step-Refines}
use kfmon.Process.Lost.{lose-IsSpawned}
use kfmon.Process.Unordered.{view, spawn_comm}
use kfmon.Process.Reachable.{spawn_finds_entry, reap_releases_own}
use kfmon.Process.Spawn.{spawn, init_process_table-IsTable}
use kfmon.Process.Blocker.{RunningBlocker, is_blocker_running_iff}

-- Watch 3 is spawned as process 4711; its reaper has read its entry.
abbrev one_spawn : ProcessTable
one_spawn = add_process_to_table init_process_table 0 4711 3

abbrev one_reaper : List Reaper
one_reaper =
    []
    ++ waiting 0 (get_or one_spawn.spawn_pids 0 none) (get_or one_spawn.spawn_watchids 0 none) ∷ []

-- Then watch 5 is spawned as process 4712.
abbrev two_spawns : ProcessTable
two_spawns = add_process_to_table one_spawn 1 4712 5

abbrev busy : System
busy = record { main = idle; table = two_spawns; reapers = started 1 ∷ one_reaper }

not_spawned :
    (is_watch_already_spawned init_process_table 3 ≡ false)
    × (is_watch_already_spawned one_spawn 5 ≡ false)
unfolding is_watch_already_spawned init_process_table add_process_to_table holds
not_spawned = (refl, refl)

available :
    (get_next_available_pt_entry init_process_table ≡ some 0)
    × (get_next_available_pt_entry one_spawn ≡ some 1)
unfolding get_next_available_pt_entry init_process_table add_process_to_table
available = (refl, refl)

first_run : Reach initial (record { main = idle; table = one_spawn; reapers = started 0 ∷ [] })
first_run =
    next
      (next
        (next (next here (check initial 3 refl (omega arith) not_spawned.0)) (
          fork (record { main = checked 3; table = init_process_table; reapers = [] }) 3 4711 refl))
        (choose (record { main = forked 3 4711; table = init_process_table; reapers = [] }) 3 4711 0
          refl available.0))
      (add (record { main = chosen 3 4711 0; table = init_process_table; reapers = [] }) 3 4711 0
        refl)

second_run : Reach initial busy
second_run =
    next
      (next
        (next
          (next
            (next first_run (
              begin (record { main = idle; table = one_spawn; reapers = started 0 ∷ [] }) [] [] 0
                refl))
            (check (record { main = idle; table = one_spawn; reapers = one_reaper }) 5 refl
              (omega arith) not_spawned.1))
          (fork (record { main = checked 5; table = one_spawn; reapers = one_reaper }) 5 4712 refl))
        (choose (record { main = forked 5 4712; table = one_spawn; reapers = one_reaper }) 5 4712 1
          refl available.1))
      (add (record { main = chosen 5 4712 1; table = one_spawn; reapers = one_reaper }) 5 4712 1
        refl)

spawn_finds_entry_example : busy.main ≢ aborted
spawn_finds_entry_example = spawn_finds_entry busy second_run

one_reaper-is : busy.reapers ≡ (started 1 ∷ []) ++ waiting 0 (some 4711) (some 3) ∷ []
unfolding init_process_table add_process_to_table
one_reaper-is = refl

-- The process of watch 3 ends.
abbrev first_ends : Step busy (record busy {
  table = remove_process_from_table two_spawns 0;
  reapers = (started 1 ∷ []) ++ [];
})
first_ends = reap busy (started 1 ∷ []) [] 0 (some 4711) (some 3) one_reaper-is

reap_releases_own_example :
    (get_elem? busy.table.spawn_pids 0 ≡ some (some 4711))
    × (get_elem? busy.table.spawn_watchids 0 ≡ some (some 3))
    × (get_elem? (target first_ends).table.spawn_watchids 0 ≡ some none)
    × (get_elem? (target first_ends).table.spawn_watchids 1 ≡ get_elem? busy.table.spawn_watchids 1)
    × (get_elem? (target first_ends).table.spawn_pids 1 ≡ get_elem? busy.table.spawn_pids 1)
reap_releases_own_example =
    reap_releases_own busy (started 1 ∷ []) [] 0 1 (some 4711) (some 3) second_run one_reaper-is
      (omega arith)

Step-Refines_example :
    Possible (change first_ends) (running busy)
    × ((v : ℕ)
        → running
            (record busy {
              table = remove_process_from_table two_spawns 0;
              reapers = (started 1 ∷ []) ++ [];
            })
            v
          ≡ changed (change first_ends) (running busy) v)
Step-Refines_example = Step-Refines first_ends second_run

lose-IsSpawned_example :
    (is_watch_already_spawned two_spawns 3 ≡ true)
    × (get_spawn_pid_for_watch two_spawns 3 ≡ some 4711)
lose-IsSpawned_example =
    lose-IsSpawned busy (record busy { reapers = (started 1 ∷ []) ++ [] }) (started 1 ∷ []) [] 0 3
      (some 4711) second_run one_reaper-is here

no_spawns : (is_watch_already_spawned init_process_table 5 ≡ false) × IsPaired init_process_table
unfolding is_watch_already_spawned init_process_table holds
no_spawns = (refl, ground arith)

spawn_comm_example :
    (t : ProcessTable) × (u : ProcessTable) × ((spawn
          (record { fork_pid = some 4711; thread_ok = true })
          init_process_table
          3
        >>= (λ s. spawn (record { fork_pid = some 4712; thread_ok = true }) s 5))
      ≡ returns t)
    × ((spawn (record { fork_pid = some 4712; thread_ok = true }) init_process_table 5
          >>= (λ s. spawn (record { fork_pid = some 4711; thread_ok = true }) s 3))
        ≡ returns u)
    × (view t ≡ view u)
    × ((ws : List WatchConfig) → is_blocker_running t ws ≡ is_blocker_running u ws)
spawn_comm_example =
    spawn_comm init_process_table 3 5 4711 4712 init_process_table-IsTable no_spawns.1
      (omega arith, omega arith) (omega arith) not_spawned.0 no_spawns.0

spawns :
    spawn (record { fork_pid = some 4711; thread_ok = true }) init_process_table 3
    ≡ returns one_spawn
unfolding spawn get_next_available_pt_entry init_process_table
spawns = refl

abbrev one_child : Handle
one_child = some 4711

-- Watch 3 blocks spawns.
abbrev blocking : List WatchConfig
blocking =
    set (replicate watch_max zero_watch) 3
      (record zero_watch { is_active = true; block_spawns = true })

is_blocker_running_iff_example :
    (is_blocker_running one_spawn blocking ≡ true)
    ↔ ((w : ℕ) × RunningBlocker blocking one_spawn.spawn_watchids w)
is_blocker_running_iff_example = is_blocker_running_iff one_spawn blocking

blocker_test : is_blocker_running one_spawn blocking ≡ true
unfolding is_blocker_running add_process_to_table init_process_table any_blocks blocks
blocker_test = refl

no_blocker_test : is_blocker_running init_process_table blocking ≡ false
unfolding is_blocker_running init_process_table any_blocks
no_blocker_test = refl
