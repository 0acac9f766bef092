-- ===== src/Process/Reachable.antt =====
-- What holds in every reachable state of the main thread and its reapers.
use kfmon.Prelude.{
  get_elem?-lt, get_or-eq, ℕ, ◌≡◌, ◌≢◌, refl, sym, ap, none, some, List, ◌∷◌, ◌++◌, Handle, get_or,
  get_elem?, length-set, get_elem?-set_self, get_elem?-set_ne, All, arith, ◌∙◌,
}
use mathlib.Core.Path.{subst}
use kfmon.Config.{watch_max}
use kfmon.Process.Table.{
  get_next_available_pt_entry, add_process_to_table, remove_process_from_table,
  is_watch_already_spawned,
}
use kfmon.Process.Occupancy.{
  IsBelow, set-none-IsUnique, set-none-IsBelow, set-some-IsUnique, set-some-IsBelow, find_from-room,
}
use kfmon.Process.System.{
  Main, idle, checked, forked, chosen, aborted, Reaper, started, waiting, System, Step, check, fork,
  choose, abort, add, begin, reap, lose, target, initial, Reach, here, next,
}
use kfmon.Process.Ownership.{
  Owns, IsApart, Pending, Inv, initial-Inv, find_from-available, Pending-set-none, All-Owns-set,
  All-Owns-ne_available,
}
use kfmon.Process.Apart.{
  All-mid, All-remove, All-replace, IsApart-remove, IsApart-others, IsApart-replace,
}

-- Only the main thread's position changes.
move-Inv :
    (s : System) (m : Main) → Pending m s.table.spawn_watchids → Inv s → Inv (record s { main = m })
move-Inv s m p v = record {
  pids_sized = v.pids_sized;
  ids_sized = v.ids_sized;
  unique = v.unique;
  below = v.below;
  pending = p;
  owned = v.owned;
  apart = v.apart;
}

pub Pending-at : (s : System) (m : Main) → s.main ≡ m → Inv s → Pending m s.table.spawn_watchids
Pending-at s m e v = subst (λ k. Pending k s.table.spawn_watchids) e v.pending

add-Inv :
    (s : System) (w pid i : ℕ)
    → s.main ≡ chosen w pid i
    → Inv s
    → Inv (record {
      main = idle;
      table = add_process_to_table s.table i pid w;
      reapers = started i ∷ s.reapers;
    })
unfolding add_process_to_table
add-Inv s w pid i e v =
    let p = Pending-at s (chosen w pid i) e v in
    let ids = s.table.spawn_watchids in
    let pids = s.table.spawn_pids in
    let lt = get_elem?-lt ids i p.2 in
    let free = All-Owns-ne_available s.table i s.reapers p.2 v.owned in
    record {
      pids_sized = length-set pids i (some pid) ∙ v.pids_sized;
      ids_sized = length-set ids i (some w) ∙ v.ids_sized;
      unique = set-some-IsUnique w i ids p.1 v.unique;
      below = set-some-IsBelow watch_max w i ids p.0 v.below;
      pending = tt;
      owned = (
        (
          pid,
          w,
          get_elem?-set_self pids i (some pid) (omega (arith, v.pids_sized, v.ids_sized)),
          get_elem?-set_self ids i (some w) lt,
        ),
        All-Owns-set s.table i (some pid) (some w) s.reapers free v.owned,
      );
      apart = (free, v.apart);
    }

begin-Inv :
    (s : System) (before after : List Reaper) (i : ℕ)
    → s.reapers ≡ before ++ started i ∷ after
    → Inv s
    → Inv (record s {
      reapers =
          before
          ++ waiting i (get_or s.table.spawn_pids i none) (get_or s.table.spawn_watchids i none)
            ∷ after;
    })
begin-Inv s before after i e v =
    let o = subst (All (Owns s.table)) e v.owned in
    let (cpid, w, p, q) = All-mid (Owns s.table) (started i) after before o in
    let wait =
      waiting i (get_or s.table.spawn_pids i none) (get_or s.table.spawn_watchids i none) in
    record {
      pids_sized = v.pids_sized;
      ids_sized = v.ids_sized;
      unique = v.unique;
      below = v.below;
      pending = v.pending;
      owned =
          All-replace (Owns s.table) (started i) after before wait
            (
              p ∙ ap some (sym (get_or-eq s.table.spawn_pids i none p)),
              q ∙ ap some (sym (get_or-eq s.table.spawn_watchids i none q)),
              (λ z. ground (arith, get_or-eq s.table.spawn_watchids i none q)),
            )
            o;
      apart = IsApart-replace (started i) after before wait refl (subst IsApart e v.apart);
    }

reap-Inv :
    (s : System) (before after : List Reaper) (i : ℕ) (cpid watch_idx : Handle)
    → s.reapers ≡ before ++ waiting i cpid watch_idx ∷ after
    → Inv s
    → Inv (record s { table = remove_process_from_table s.table i; reapers = before ++ after })
unfolding remove_process_from_table
reap-Inv s before after i cpid watch_idx e v =
    let r = waiting i cpid watch_idx in
    let o = subst (All (Owns s.table)) e v.owned in
    let a = subst IsApart e v.apart in
    record {
      pids_sized = length-set s.table.spawn_pids i none ∙ v.pids_sized;
      ids_sized = length-set s.table.spawn_watchids i none ∙ v.ids_sized;
      unique = set-none-IsUnique i s.table.spawn_watchids v.unique;
      below = set-none-IsBelow watch_max i s.table.spawn_watchids v.below;
      pending = Pending-set-none s.main s.table.spawn_watchids i v.pending;
      owned =
          All-Owns-set s.table i none none (before ++ after) (IsApart-others r after before a)
            (All-remove (Owns s.table) r after before o);
      apart = IsApart-remove r after before a;
    }

lose-Inv :
    (s : System) (before after : List Reaper) (i : ℕ) (cpid watch_idx : Handle)
    → s.reapers ≡ before ++ waiting i cpid watch_idx ∷ after
    → Inv s
    → Inv (record s { reapers = before ++ after })
lose-Inv s before after i cpid watch_idx e v =
    let r = waiting i cpid watch_idx in
    record {
      pids_sized = v.pids_sized;
      ids_sized = v.ids_sized;
      unique = v.unique;
      below = v.below;
      pending = v.pending;
      owned = All-remove (Owns s.table) r after before (subst (All (Owns s.table)) e v.owned);
      apart = IsApart-remove r after before (subst IsApart e v.apart);
    }

-- A spawn in progress has an available entry.
abort-impossible :
    (s : System) (w pid : ℕ)
    → s.main ≡ forked w pid
    → get_next_available_pt_entry s.table ≡ none
    → Inv s
    → ⊥
unfolding get_next_available_pt_entry
abort-impossible s w pid e n v =
    let p = Pending-at s (forked w pid) e v in
    find_from-room w s.table.spawn_watchids p.1 v.unique
      (subst (λ k. IsBelow k s.table.spawn_watchids) (sym v.ids_sized) v.below)
      (omega (arith, v.ids_sized, p.0)) n

choose-Pending :
    (s : System) (w pid i : ℕ)
    → s.main ≡ forked w pid
    → get_next_available_pt_entry s.table ≡ some i
    → Inv s
    → Pending (chosen w pid i) s.table.spawn_watchids
unfolding get_next_available_pt_entry
choose-Pending s w pid i e n v =
    let p = Pending-at s (forked w pid) e v in
    let (k, q, a) = find_from-available 0 i s.table.spawn_watchids n in
    (p.0, p.1, subst (λ j. get_elem? s.table.spawn_watchids j ≡ some none) (omega arith) a)

pub Step-Inv : {s t : System} → Step s t → Inv s → Inv t
unfolding is_watch_already_spawned
Step-Inv (check s w e lt h) v = move-Inv s (checked w) (lt, h) v
Step-Inv (fork s w pid e) v = move-Inv s (forked w pid) (Pending-at s (checked w) e v) v
Step-Inv (choose s w pid i e n) v = move-Inv s (chosen w pid i) (choose-Pending s w pid i e n v) v
Step-Inv (abort s w pid e n) v = absurd (abort-impossible s w pid e n v)
Step-Inv (add s w pid i e) v = add-Inv s w pid i e v
Step-Inv (begin s before after i e) v = begin-Inv s before after i e v
Step-Inv (reap s before after i cpid watch_idx e) v = reap-Inv s before after i cpid watch_idx e v
Step-Inv (lose s before after i cpid watch_idx e) v = lose-Inv s before after i cpid watch_idx e v

pub Reach-Inv : {s t : System} → Inv s → Reach s t → Inv t
Reach-Inv v here = v
Reach-Inv v (next r st) = Step-Inv st (Reach-Inv v r)

-- Whatever the interleaving of the main thread with its reapers, and also when reapers lose their
-- child: the main thread never exits for lack of an available entry in the process table.
pub spawn_finds_entry : (s : System) → Reach initial s → s.main ≢ aborted
spawn_finds_entry s r e = Pending-at s aborted e (Reach-Inv initial-Inv r)

-- In every reachable state, a reaper that waits for its child holds the entry with this child's pid and
-- watch; the step in which it has reaped the child leaves that entry available, and any other entry as
-- it was.
pub reap_releases_own :
    (s : System) (before after : List Reaper) (i j : ℕ) (cpid watch_idx : Handle)
    → Reach initial s
    → (e : s.reapers ≡ before ++ waiting i cpid watch_idx ∷ after) → i ≢ j
    → (get_elem? s.table.spawn_pids i ≡ some cpid)
      × (get_elem? s.table.spawn_watchids i ≡ some watch_idx)
      × (get_elem? (target (reap s before after i cpid watch_idx e)).table.spawn_watchids i
          ≡ some none)
      × (get_elem? (target (reap s before after i cpid watch_idx e)).table.spawn_watchids j
          ≡ get_elem? s.table.spawn_watchids j)
      × (get_elem? (target (reap s before after i cpid watch_idx e)).table.spawn_pids j
          ≡ get_elem? s.table.spawn_pids j)
unfolding remove_process_from_table
reap_releases_own s before after i j cpid watch_idx r e n =
    let v = Reach-Inv initial-Inv r in
    let o =
      All-mid (Owns s.table) (waiting i cpid watch_idx) after before
        (subst (All (Owns s.table)) e v.owned) in
    (
      o.0,
      o.1,
      get_elem?-set_self s.table.spawn_watchids i none (get_elem?-lt s.table.spawn_watchids i o.1),
      get_elem?-set_ne s.table.spawn_watchids i j none n,
      get_elem?-set_ne s.table.spawn_pids i j none n,
    )
