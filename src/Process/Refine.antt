-- ===== src/Process/Refine.antt =====
-- What the process table promises: a map from watches to running processes, which the main thread and
-- the reapers of kfmon.c change by whole starts and ends of processes only.
use kfmon.Prelude.{
  ℕ, ◌≡◌, refl, none, some, is_none, List, ◌∷◌, ◌++◌, Handle, if◌then◌else◌, ◌==◌, same_handle, All,
  arith, not,
}
use mathlib.Core.Path.{subst}
use kfmon.Process.Table.{
  ProcessTable, init_process_table, add_process_to_table, remove_process_from_table,
  get_spawn_pid_for_watch, is_watch_already_spawned,
}
use kfmon.Process.System.{
  Reaper, chosen, waiting, System, Step, check, fork, choose, abort, add, begin, reap, lose,
  initial, Reach, here, next,
}
use kfmon.Process.Ownership.{Owns, Inv, initial-Inv}
use kfmon.Process.Apart.{All-mid}
use kfmon.Process.Running.{
  Paired, Paired-set, Paired-at, pid_for-add, pid_for-remove, pid_for-at, pid_for-none,
  holds-pid_for,
}
use kfmon.Process.Occupancy.{IsUnique}
use kfmon.Process.Reachable.{Reach-Inv, Pending-at}

-- The abstract view.
abbrev pub Running : Type 0
Running = ℕ → Handle

abbrev pub running : System → Running
running s w = get_spawn_pid_for_watch s.table w

-- What a step does to it. A watch and a pid are handles here, since a reaper has read them as such.
pub data Change : Type 0 where
  unchanged : Change
  begun : ℕ → ℕ → Change
  ended : Handle → Handle → Change

abbrev pub change : {s t : System} → Step s t → Change
change (check s w e lt h) = unchanged
change (fork s w pid e) = unchanged
change (choose s w pid i e n) = unchanged
change (abort s w pid e n) = unchanged
change (add s w pid i e) = begun w pid
change (begin s before after i e) = unchanged
change (reap s before after i cpid watch_idx e) = ended watch_idx cpid
change (lose s before after i cpid watch_idx e) = unchanged

-- A process begins only for a watch that has none, and ends only as the one its watch has.
abbrev pub Possible : Change → Running → Type 0
Possible unchanged m = Unit {0}
Possible (begun w pid) m = m w ≡ none
Possible (ended none cpid) m = ⊥
Possible (ended (some w) none) m = ⊥
Possible (ended (some w) (some pid)) m = m w ≡ some pid

abbrev pub changed : Change → Running → Running
changed unchanged m v = m v
changed (begun w pid) m v = if w == v then some pid else m v
changed (ended id cpid) m v = if same_handle id (some v) then none else m v

abbrev pub IsPaired : ProcessTable → Type 0
IsPaired pt = Paired pt.spawn_watchids pt.spawn_pids

initial-IsPaired : IsPaired init_process_table
unfolding init_process_table
initial-IsPaired = ground arith

Step-IsPaired : {s t : System} → Step s t → IsPaired s.table → IsPaired t.table
unfolding add_process_to_table remove_process_from_table
Step-IsPaired (check s w e lt h) p = p
Step-IsPaired (fork s w pid e) p = p
Step-IsPaired (choose s w pid i e n) p = p
Step-IsPaired (abort s w pid e n) p = p
Step-IsPaired (add s w pid i e) p =
    Paired-set s.table.spawn_watchids s.table.spawn_pids i (some w) (some pid) refl p
Step-IsPaired (begin s before after i e) p = p
Step-IsPaired (reap s before after i cpid watch_idx e) p =
    Paired-set s.table.spawn_watchids s.table.spawn_pids i none none refl p
Step-IsPaired (lose s before after i cpid watch_idx e) p = p

Reach-IsPaired : {s t : System} → IsPaired s.table → Reach s t → IsPaired t.table
Reach-IsPaired p here = p
Reach-IsPaired p (next r st) = Step-IsPaired st (Reach-IsPaired p r)

abbrev pub Refines : {s t : System} → Step s t → Type 0
Refines {s} {t} st =
    Possible (change st) (running s) × ((v : ℕ) → running t v ≡ changed (change st) (running s) v)

add-Refines :
    (s : System) (w pid i : ℕ) (e : s.main ≡ chosen w pid i)
    → Inv s
    → IsPaired s.table
    → Refines (add s w pid i e)
unfolding add_process_to_table get_spawn_pid_for_watch
add-Refines s w pid i e v p =
    let (lt, h, a) = Pending-at s (chosen w pid i) e v in
    let ids = s.table.spawn_watchids in
    let pids = s.table.spawn_pids in
    (pid_for-none w ids pids h, λ u. pid_for-add u w pid i ids pids p a h)

remove-Refines :
    (pt : ProcessTable) (i : ℕ) (id cpid : Handle)
    → Owns pt (waiting i cpid id)
    → IsUnique pt.spawn_watchids
    → IsPaired pt
    → Possible (ended id cpid) (get_spawn_pid_for_watch pt)
      × ((v : ℕ)
          → get_spawn_pid_for_watch (remove_process_from_table pt i) v
            ≡ changed (ended id cpid) (get_spawn_pid_for_watch pt) v)
unfolding remove_process_from_table get_spawn_pid_for_watch
remove-Refines pt i none cpid o u p = absurd (o.2 refl)
remove-Refines pt i (some w) none o u p =
    absurd (ground (arith, Paired-at pt.spawn_watchids pt.spawn_pids i (some w) none p o.1 o.0))
remove-Refines pt i (some w) (some pid) o u p =
    let ids = pt.spawn_watchids in
    let pids = pt.spawn_pids in
    (pid_for-at w i ids pids (some pid) u o.1 o.0, λ v. pid_for-remove v w i ids pids p u o.1)

reap-Refines :
    (s : System) (before after : List Reaper) (i : ℕ) (cpid watch_idx : Handle)
    (e : s.reapers ≡ before ++ waiting i cpid watch_idx ∷ after)
    → Inv s
    → IsPaired s.table
    → Refines (reap s before after i cpid watch_idx e)
reap-Refines s before after i cpid watch_idx e v p =
    let o =
      All-mid (Owns s.table) (waiting i cpid watch_idx) after before
        (subst (All (Owns s.table)) e v.owned) in
    remove-Refines s.table i watch_idx cpid o v.unique p

Inv-Refines : {s t : System} (st : Step s t) → Inv s → IsPaired s.table → Refines st
Inv-Refines (check s w e lt h) v p = (tt, λ u. refl)
Inv-Refines (fork s w pid e) v p = (tt, λ u. refl)
Inv-Refines (choose s w pid i e n) v p = (tt, λ u. refl)
Inv-Refines (abort s w pid e n) v p = (tt, λ u. refl)
Inv-Refines (add s w pid i e) v p = add-Refines s w pid i e v p
Inv-Refines (begin s before after i e) v p = (tt, λ u. refl)
Inv-Refines (reap s before after i cpid watch_idx e) v p =
    reap-Refines s before after i cpid watch_idx e v p
Inv-Refines (lose s before after i cpid watch_idx e) v p = (tt, λ u. refl)

-- Whatever the interleaving: a step of the main thread or of a reaper changes the running processes,
-- seen as a map from watches to pids, by nothing, by the start of one process for a watch that has
-- none, or by the end of the process that its watch has; no other watch sees a change.
pub Step-Refines :
    {s t : System} (st : Step s t)
    → Reach initial s
    → Possible (change st) (running s) × ((v : ℕ) → running t v ≡ changed (change st) (running s) v)
Step-Refines st r = Inv-Refines st (Reach-Inv initial-Inv r) (Reach-IsPaired initial-IsPaired r)

-- In every reachable state, the test for a running watch and the lookup of its pid agree.
pub is_watch_already_spawned-running :
    (s : System) (w : ℕ)
    → Reach initial s
    → is_watch_already_spawned s.table w ≡ not (is_none (running s w))
unfolding is_watch_already_spawned get_spawn_pid_for_watch
is_watch_already_spawned-running s w r =
    holds-pid_for w s.table.spawn_watchids s.table.spawn_pids (Reach-IsPaired initial-IsPaired r)
