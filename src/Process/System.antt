-- ===== src/Process/System.antt =====
-- The main thread and the reaper threads over the process table (spawn and reaper_thread of kfmon.c),
-- as interleaved steps. A step is what happens under one hold of `ptlock`, or between two of them.
use kfmon.Prelude.{ℕ, ◌<◌, ◌≡◌, false, none, some, List, [], ◌∷◌, ◌++◌, Handle, get_or}
use kfmon.Config.{watch_max}
use kfmon.Process.Table.{
  ProcessTable, init_process_table, get_next_available_pt_entry, add_process_to_table,
  remove_process_from_table, is_watch_already_spawned,
}

-- Where the main thread stands between the check of its caller and the end of `spawn`.
pub data Main : Type 0 where
  idle : Main
  checked : ℕ → Main  -- the watch has no spawn, and is about to be spawned
  forked : ℕ → ℕ → Main  -- the watch and the child's pid
  chosen : ℕ → ℕ → ℕ → Main  -- and the available entry that was found
  aborted : Main  -- exit(EXIT_FAILURE) for lack of an available entry

-- A reaper thread: it has its entry's index, then the pid and watch index that it read there.
pub data Reaper : Type 0 where
  started : ℕ → Reaper
  waiting : ℕ → Handle → Handle → Reaper

pub record System : Type 0 where
  pub main : Main
  pub table : ProcessTable
  pub reapers : List Reaper

pub data Step : System → System → Type 0 where
  -- handle_events or handle_ipc finds that the watch has no spawn.
  check :
      (s : System) (w : ℕ)
      → s.main ≡ idle
      → w < watch_max
      → is_watch_already_spawned s.table w ≡ false
      → Step s (record s { main = checked w })
  fork : (s : System) (w pid : ℕ) → s.main ≡ checked w → Step s (record s { main = forked w pid })
  choose :
      (s : System) (w pid i : ℕ)
      → s.main ≡ forked w pid
      → get_next_available_pt_entry s.table ≡ some i
      → Step s (record s { main = chosen w pid i })
  abort :
      (s : System) (w pid : ℕ)
      → s.main ≡ forked w pid
      → get_next_available_pt_entry s.table ≡ none
      → Step s (record s { main = aborted })
  -- The entry is filled, and a reaper thread started for it.
  add :
      (s : System) (w pid i : ℕ)
      → s.main ≡ chosen w pid i
      → Step s (record {
        main = idle;
        table = add_process_to_table s.table i pid w;
        reapers = started i ∷ s.reapers;
      })
  -- A reaper reads its entry.
  begin :
      (s : System) (before after : List Reaper) (i : ℕ)
      → s.reapers ≡ before ++ started i ∷ after
      → Step s (record s {
        reapers =
            before
            ++ waiting i (get_or s.table.spawn_pids i none) (get_or s.table.spawn_watchids i none)
              ∷ after;
      })
  -- The child is reaped and its entry released.
  reap :
      (s : System) (before after : List Reaper) (i : ℕ) (cpid watch_idx : Handle)
      → s.reapers ≡ before ++ waiting i cpid watch_idx ∷ after
      → Step s (record s { table = remove_process_from_table s.table i; reapers = before ++ after })
  -- `waitpid` failed: the thread ends and its entry stays taken.
  lose :
      (s : System) (before after : List Reaper) (i : ℕ) (cpid watch_idx : Handle)
      → s.reapers ≡ before ++ waiting i cpid watch_idx ∷ after
      → Step s (record s { reapers = before ++ after })

-- What a step leads to.
abbrev pub target : {s t : System} → Step s t → System
target {s} {t} st = t

-- After `init_process_table`, before the main loop.
abbrev pub initial : System
initial = record { main = idle; table = init_process_table; reapers = [] }

pub data Reach (s : System) : System → Type 0 where
  here : Reach s s
  next : {t u : System} → Reach s t → Step t u → Reach s u
