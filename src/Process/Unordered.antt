-- ===== src/Process/Unordered.antt =====
-- The process table without the order of its entries: what the questions that kfmon.c asks of it see.
use kfmon.Prelude.{
  ℕ, ◌<◌, ◌≡◌, ◌≢◌, refl, sym, ap, ◌∙◌, Bool, true, false, none, some, Handle, if◌then◌else◌, ◌==◌,
  List, arith, returns, ◌>>=◌, get_elem?, is_none, not,
}
use mathlib.Core.Path.{subst}
use mathlib.Core.Quot
use mathlib.Core.Quot.{Quot, Quot-set}
use kfmon.Config.{WatchConfig, watch_max}
use kfmon.Process.Table.{
  ProcessTable, is_watch_already_spawned, is_blocker_running, get_spawn_pid_for_watch,
  get_next_available_pt_entry, add_process_to_table,
}
use kfmon.Process.Blocker.{is_blocker_running_iff}
use kfmon.Process.Ownership.{find_from-available}
use kfmon.Process.Running.{Paired-set, pid_for-add, holds-pid_for}
use kfmon.Process.Refine.{IsPaired}
use kfmon.Process.Spawn.{Launch, spawn, IsTable, entry_found, add-IsTable}

-- Each watch runs in both tables or in neither, under the same pid.
abbrev pub SameRunning : ProcessTable → ProcessTable → Type 0
SameRunning pt qt =
    (w : ℕ)
    → (is_watch_already_spawned pt w ≡ is_watch_already_spawned qt w)
      × (get_spawn_pid_for_watch pt w ≡ get_spawn_pid_for_watch qt w)

-- A table whose order is forgotten.
abbrev pub View : Type 0
View = Quot SameRunning

abbrev pub view : ProcessTable → View
view pt = Quot.mk pt

blocker-SameRunning :
    (ws : List WatchConfig) (pt qt : ProcessTable)
    → SameRunning pt qt
    → is_blocker_running pt ws ≡ true
    → is_blocker_running qt ws ≡ true
unfolding is_watch_already_spawned
blocker-SameRunning ws pt qt h e =
    let (w, b) = (is_blocker_running_iff pt ws).0 e in
    (is_blocker_running_iff qt ws).1 (
      w,
      record {
        watch = b.watch;
        at_slot = b.at_slot;
        active = b.active;
        blocking = b.blocking;
        running = sym ((h w).0) ∙ b.running;
      },
    )

is_blocker_running-SameRunning :
    (ws : List WatchConfig) (pt qt : ProcessTable)
    → SameRunning pt qt
    → is_blocker_running pt ws ≡ is_blocker_running qt ws
is_blocker_running-SameRunning ws pt qt h =
    let there = blocker-SameRunning ws pt qt h in
    let back = blocker-SameRunning ws qt pt (λ w. (sym (h w).0, sym (h w).1)) in
    ground (arith, there, back)

-- The test of handle_events and handle_ipc for a running blocker, asked of the view.
abbrev blocker_runs : List WatchConfig → View → Bool
blocker_runs ws =
    Quot.lift (hlevel) (λ pt. is_blocker_running pt ws) (is_blocker_running-SameRunning ws)

abbrev child : ℕ → Launch
child pid = record { fork_pid = some pid; thread_ok = true }

-- A spawn that succeeds, as seen by the lookups.
record Spawned (pt : ProcessTable) (w pid : ℕ) (pt' : ProcessTable) : Type 0 where
  result : spawn (child pid) pt w ≡ returns pt'
  sound : IsTable pt'
  paired : IsPaired pt'
  pids :
      (v : ℕ)
      → get_spawn_pid_for_watch pt' v ≡ (if w == v then some pid else get_spawn_pid_for_watch pt v)

spawn-pids :
    (pt : ProcessTable) (w pid i : ℕ)
    → IsPaired pt
    → is_watch_already_spawned pt w ≡ false
    → get_next_available_pt_entry pt ≡ some i
    → (u : ℕ)
    → get_spawn_pid_for_watch (add_process_to_table pt i pid w) u
      ≡ (if w == u then some pid else get_spawn_pid_for_watch pt u)
unfolding get_spawn_pid_for_watch add_process_to_table is_watch_already_spawned
    get_next_available_pt_entry
spawn-pids pt w pid i p h e u =
    let (k, q, a) = find_from-available 0 i pt.spawn_watchids e in
    pid_for-add u w pid i pt.spawn_watchids pt.spawn_pids p
      (subst (λ j. get_elem? pt.spawn_watchids j ≡ some none) (omega arith) a) h

spawn-Spawned :
    (pt : ProcessTable) (w pid : ℕ)
    → IsTable pt
    → IsPaired pt
    → w < watch_max
    → is_watch_already_spawned pt w ≡ false
    → (pt' : ProcessTable) × Spawned pt w pid pt'
unfolding spawn
spawn-Spawned pt w pid v p lt h =
    let (i, e, b) = entry_found pt w v lt h in
    (
      add_process_to_table pt i pid w,
      record {
        result = rw e;
        sound = add-IsTable pt i pid w lt h v;
        paired =
            unfold add_process_to_table in
            Paired-set pt.spawn_watchids pt.spawn_pids i (some w) (some pid) refl p;
        pids = spawn-pids pt w pid i p h e;
      },
    )

paired-SameRunning :
    (pt qt : ProcessTable)
    → IsPaired pt
    → IsPaired qt
    → ((w : ℕ) → get_spawn_pid_for_watch pt w ≡ get_spawn_pid_for_watch qt w)
    → SameRunning pt qt
unfolding is_watch_already_spawned get_spawn_pid_for_watch
paired-SameRunning pt qt p q h w = (
  holds-pid_for w pt.spawn_watchids pt.spawn_pids p
      ∙ ap (λ (o : Handle). not (is_none o)) (h w)
      ∙ sym (holds-pid_for w qt.spawn_watchids qt.spawn_pids q),
  h w,
)

still_free :
    (pt pt' : ProcessTable) (w v pid : ℕ)
    → IsPaired pt
    → Spawned pt w pid pt'
    → w ≢ v
    → is_watch_already_spawned pt v ≡ false
    → is_watch_already_spawned pt' v ≡ false
unfolding is_watch_already_spawned get_spawn_pid_for_watch
still_free pt pt' w v pid p s n h = ground (
  arith,
  holds-pid_for v pt.spawn_watchids pt.spawn_pids p,
  holds-pid_for v pt'.spawn_watchids pt'.spawn_pids s.paired,
  s.pids v,
)

-- Two watches without a process are spawned in either order, if fork and thread succeed, and the tables
-- that result are the same but for the order of their entries; so they hold the same blockers.
pub spawn_comm :
    (pt : ProcessTable) (w v pid qid : ℕ)
    → IsTable pt
    → IsPaired pt
    → (w < watch_max) × (v < watch_max)
    → w ≢ v
    → is_watch_already_spawned pt w ≡ false
    → is_watch_already_spawned pt v ≡ false
    → (t : ProcessTable) × (u : ProcessTable) × ((spawn (child pid) pt w
          >>= (λ s. spawn (child qid) s v))
        ≡ returns t)
      × ((spawn (child qid) pt v >>= (λ s. spawn (child pid) s w)) ≡ returns u)
      × (view t ≡ view u)
      × ((ws : List WatchConfig) → is_blocker_running t ws ≡ is_blocker_running u ws)
spawn_comm pt w v pid qid sound p (lw, lv) n hw hv =
    let (s1, a) = spawn-Spawned pt w pid sound p lw hw in
    let (t, b) = spawn-Spawned s1 v qid a.sound a.paired lv (still_free pt s1 w v pid p a n hv) in
    let (s2, c) = spawn-Spawned pt v qid sound p lv hv in
    let (u, d) =
      spawn-Spawned s2 w pid c.sound c.paired lw
        (still_free pt s2 v w qid p c (λ e. n (sym e)) hw) in
    let same : SameRunning t u =
      paired-SameRunning t u b.paired d.paired
        (λ x. ground (arith, a.pids x, b.pids x, c.pids x, d.pids x)) in
    let e : view t ≡ view u = Quot.sound same in
    (t, u, rw a.result b.result, rw c.result d.result, e, λ ws. ap (blocker_runs ws) e)
