-- ===== src/Process/Lost.antt =====
-- What becomes of a process that its reaper thread could not wait for.
use kfmon.Prelude.{
  ℕ, ◌≡◌, ◌≢◌, true, none, some, List, ◌∷◌, ◌++◌, Handle, get_elem?, get_or, set, ◌∙◌,
  get_elem?-set_ne, All, arith,
}
use mathlib.Core.Path.{subst}
use kfmon.Process.Table.{
  add_process_to_table, remove_process_from_table, get_spawn_pid_for_watch,
  is_watch_already_spawned,
}
use kfmon.Process.System.{
  Main, idle, checked, forked, chosen, aborted, Reaper, started, waiting, System, Step, check, fork,
  choose, abort, add, begin, reap, lose, target, initial, Reach, here, next,
}
use kfmon.Process.Ownership.{slot_of, Owns, IsApart, Inv, initial-Inv}
use kfmon.Process.Apart.{All-mid, All-remove, All-replace, IsApart-others}
use kfmon.Process.Running.{pid_for-at, holds-at}
use kfmon.Process.Reachable.{Reach-Inv, Step-Inv, Pending-at}

-- Entry `i` is taken, and no reaper is there to release it.
record IsStuck (i w : ℕ) (cpid : Handle) (s : System) : Type 0 where
  pid_there : get_elem? s.table.spawn_pids i ≡ some cpid
  watch_there : get_elem? s.table.spawn_watchids i ≡ some (some w)
  unowned : All (λ r. slot_of r ≢ i) s.reapers

module _ (i w : ℕ) (cpid : Handle) where
  -- The table changes elsewhere at most.
  elsewhere :
      (s : System) (m : Main) (rs : List Reaper) (j : ℕ) (h k : Handle)
      → j ≢ i
      → All (λ r. slot_of r ≢ i) rs
      → IsStuck i w cpid s
      → IsStuck i w cpid (record {
        main = m;
        table = record {
          spawn_pids = set s.table.spawn_pids j h;
          spawn_watchids = set s.table.spawn_watchids j k;
        };
        reapers = rs;
      })
  elsewhere s m rs j h k n u v = record {
    pid_there = get_elem?-set_ne s.table.spawn_pids j i h n ∙ v.pid_there;
    watch_there = get_elem?-set_ne s.table.spawn_watchids j i k n ∙ v.watch_there;
    unowned = u;
  }

  nowhere :
      (s : System) (m : Main) (rs : List Reaper)
      → All (λ r. slot_of r ≢ i) rs
      → IsStuck i w cpid s
      → IsStuck i w cpid (record { main = m; table = s.table; reapers = rs })
  nowhere s m rs u v = record { pid_there = v.pid_there; watch_there = v.watch_there; unowned = u }

  Step-IsStuck : {s t : System} → Step s t → Inv s → IsStuck i w cpid s → IsStuck i w cpid t
  unfolding add_process_to_table remove_process_from_table
  Step-IsStuck (check s x e lt h) v k = nowhere s (checked x) s.reapers k.unowned k
  Step-IsStuck (fork s x pid e) v k = nowhere s (forked x pid) s.reapers k.unowned k
  Step-IsStuck (choose s x pid j e n) v k = nowhere s (chosen x pid j) s.reapers k.unowned k
  Step-IsStuck (abort s x pid e n) v k = nowhere s aborted s.reapers k.unowned k
  Step-IsStuck (add s x pid j e) v k =
      let (lt, h, free) = Pending-at s (chosen x pid j) e v in
      let other : j ≢ i = λ e. ground (arith, k.watch_there) in
      elsewhere s idle (started j ∷ s.reapers) j (some pid) (some x) other (other, k.unowned) k
  Step-IsStuck (begin s before after j e) v k =
      let unowned = subst (All (λ r. slot_of r ≢ i)) e k.unowned in
      let wait =
        waiting j (get_or s.table.spawn_pids j none) (get_or s.table.spawn_watchids j none) in
      nowhere s s.main (before ++ wait ∷ after)
        (All-replace (λ r. slot_of r ≢ i) (started j) after before wait
          (All-mid (λ r. slot_of r ≢ i) (started j) after before unowned) unowned)
        k
  Step-IsStuck (reap s before after j c x e) v k =
      let unowned = subst (All (λ r. slot_of r ≢ i)) e k.unowned in
      elsewhere s s.main (before ++ after) j none none
        (All-mid (λ r. slot_of r ≢ i) (waiting j c x) after before unowned)
        (All-remove (λ r. slot_of r ≢ i) (waiting j c x) after before unowned) k
  Step-IsStuck (lose s before after j c x e) v k =
      let unowned = subst (All (λ r. slot_of r ≢ i)) e k.unowned in
      nowhere s s.main (before ++ after)
        (All-remove (λ r. slot_of r ≢ i) (waiting j c x) after before unowned) k

  Reach-IsStuck :
      {s t : System} → Inv s → IsStuck i w cpid s → Reach s t → Inv t × IsStuck i w cpid t
  Reach-IsStuck v k here = (v, k)
  Reach-IsStuck v k (next r st) =
      let (v1, k1) = Reach-IsStuck v k r in (Step-Inv st v1, Step-IsStuck st v1 k1)

lose-IsStuck :
    (s : System) (before after : List Reaper) (i w : ℕ) (cpid : Handle)
    → Inv s
    → s.reapers ≡ before ++ waiting i cpid (some w) ∷ after
    → IsStuck i w cpid (record s { reapers = before ++ after })
lose-IsStuck s before after i w cpid v e =
    let r = waiting i cpid (some w) in
    let o = All-mid (Owns s.table) r after before (subst (All (Owns s.table)) e v.owned) in
    record {
      pid_there = o.0;
      watch_there = o.1;
      unowned = IsApart-others r after before (subst IsApart e v.apart);
    }

-- When `waitpid` fails in a reaper, the watch it served counts as running for ever, with the pid that
-- the reaper waited for, whatever happens afterwards.
pub lose-IsSpawned :
    (s t : System) (before after : List Reaper) (i w : ℕ) (cpid : Handle)
    → Reach initial s
    → (e : s.reapers ≡ before ++ waiting i cpid (some w) ∷ after)
    → Reach (target (lose s before after i cpid (some w) e)) t
    → (is_watch_already_spawned t.table w ≡ true) × (get_spawn_pid_for_watch t.table w ≡ cpid)
unfolding is_watch_already_spawned get_spawn_pid_for_watch
lose-IsSpawned s t before after i w cpid r e later =
    let v = Reach-Inv initial-Inv r in
    let lost = Step-Inv (lose s before after i cpid (some w) e) v in
    let (u, k) = Reach-IsStuck i w cpid lost (lose-IsStuck s before after i w cpid v e) later in
    let ids = t.table.spawn_watchids in
    (
      holds-at w i ids k.watch_there,
      pid_for-at w i ids t.table.spawn_pids cpid u.unique k.watch_there k.pid_there,
    )
