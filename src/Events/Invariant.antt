-- ===== src/Events/Invariant.antt =====
-- handle_events keeps the daemon's state well-formed.
use kfmon.Prelude.{
  ℕ, suc, ◌+◌, ◌<◌, ◌≤◌, ◌≡◌, refl, ap, Bool, true, false, not, ◌&&◌, ◌||◌, Option, none, some,
  List, [], ◌∷◌, arith, Handle, same_handle, is_none, if◌then◌else◌, if_all, Bool-cases, inl, inr,
  Outcome, returns, exits, ◌>>=◌, ◌>>◌, set, length, find_from, find_from_bounds,
}
use mathlib.Core.Path.{subst}
use kfmon.Process.Table.{ProcessTable, is_watch_already_spawned}
use kfmon.Process.Spawn.{spawn, IsTable, spawn-IsTable}
use kfmon.Config.{WatchConfig, watch_max, watch_at}
use kfmon.Config.WellFormed.{WellFormed}
use kfmon.Config.Alike.{SameKeys, SameKeys-refl, Alike, set-Alike, Alike-WellFormed}
use kfmon.Events.Gate.{Allowed-of_tests}
use kfmon.Events.{
  Daemon, Event, Answers, match_event, may_spawn, on_open, on_close, should_spawn, stamped,
  launch_watch, put_watch, Batch, on_ignored, on_q_overflow, handle_event, handle_batch,
  crashes_on_open, crashes_on_close, unless_crashed, tear_down_watch, tear_down, Read, events,
  broken, interrupted, end_batch, handle_reads, handle_events, or_last,
}

pub record IsDaemon (d : Daemon) : Type 0 where
  pub watches : WellFormed d.watches
  pub table : IsTable d.table

-- What holds of the result, if the call returns.
abbrev pub Ends {ℓ κ} : {A : Type ℓ} → (A → Type κ) → Outcome A → Type κ
Ends P (returns a) = P a
Ends P exits = Unit

pub Ends->>= {ℓ κ μ} :
    {A : Type ℓ} {B : Type κ} (P : A → Type μ) (Q : B → Type μ) (m : Outcome A) (f : A → Outcome B)
    → Ends P m
    → ((a : A) → P a → Ends Q (f a))
    → Ends Q (m >>= f)
Ends->>= P Q (returns a) f h k = k a h
Ends->>= P Q exits f h k = tt

put_watch-IsDaemon :
    (d : Daemon) (i : ℕ) (v : WatchConfig)
    → SameKeys (watch_at d.watches i) v
    → IsDaemon d
    → IsDaemon (put_watch d i v)
put_watch-IsDaemon d i v s h = record {
  watches = Alike-WellFormed d.watches (set d.watches i v) (set-Alike d.watches i v s) h.watches;
  table = h.table;
}

-- A write of runtime fields alone.
pub same_keys :
    (w v : WatchConfig)
    → v ≡ record w {
      processing_ts = v.processing_ts;
      inotify_wd = v.inotify_wd;
      wd_was_destroyed = v.wd_was_destroyed;
      pending_processing = v.pending_processing;
    }
    → SameKeys w v
same_keys w v e = record {
  is_active = ap (λ (x : WatchConfig). x.is_active) e;
  filename = ap (λ (x : WatchConfig). x.filename) e;
  action = ap (λ (x : WatchConfig). x.action) e;
  label = ap (λ (x : WatchConfig). x.label) e;
  do_db_update = ap (λ (x : WatchConfig). x.do_db_update) e;
  db_title = ap (λ (x : WatchConfig). x.db_title) e;
  db_author = ap (λ (x : WatchConfig). x.db_author) e;
  db_comment = ap (λ (x : WatchConfig). x.db_comment) e;
}

on_open-IsDaemon : (a : Answers) (i : ℕ) (d : Daemon) → IsDaemon d → IsDaemon (on_open a i d)
unfolding on_open
on_open-IsDaemon a i d h =
    if_all IsDaemon (may_spawn d i a.open_inhibited)
      (put_watch-IsDaemon d i _ (same_keys (watch_at d.watches i) _ refl) h) h

stamped-SameKeys : (w : WatchConfig) (o : Option ℕ) → SameKeys w (stamped w o)
stamped-SameKeys w none = SameKeys-refl w
stamped-SameKeys w (some t) =
    if_all (SameKeys w) _ (same_keys w (record w { processing_ts = t }) refl) (SameKeys-refl w)

launch_watch-IsDaemon :
    (a : Answers) (i : ℕ) (d : Daemon)
    → i < watch_max
    → is_watch_already_spawned d.table i ≡ false
    → IsDaemon d
    → Ends IsDaemon (launch_watch a i d)
unfolding launch_watch
launch_watch-IsDaemon a i d lt n h = go (spawn a.launch d.table i) refl
  where
    go :
        (o : Outcome ProcessTable)
        → spawn a.launch d.table i ≡ o
        → Ends IsDaemon (
            o >>= λ table. returns (record {
              watches = set d.watches i (record (watch_at d.watches i) { processing_ts = 0 });
              table = table;
            }))
    go exits e = tt
    go (returns t) e = record {
      watches =
          (put_watch-IsDaemon d i (record (watch_at d.watches i) { processing_ts = 0 })
            (same_keys (watch_at d.watches i) _ refl) h).watches;
      table = (spawn-IsTable a.launch d.table t i h.table lt n e).0;
    }

on_close-IsDaemon :
    (a : Answers) (i : ℕ) (d : Daemon) → i < watch_max → IsDaemon d → Ends IsDaemon (on_close a i d)
unfolding on_close
on_close-IsDaemon a i d lt h = elim (Bool-cases (may_spawn d i a.close_inhibited)) [
  | inr m ↦ rw m h
  | inl m ↦ elim (Bool-cases (should_spawn a (watch_at d.watches i))) [
    | inr s ↦
        rw (m, s) (put_watch-IsDaemon d i _ (stamped-SameKeys (watch_at d.watches i) a.stamp) h)
    | inl s ↦ rw (m, s) (launch_watch-IsDaemon a i d lt (Allowed-of_tests a i d m s).not_running h)
  ]
]

abbrev IsBatch : Batch → Type 0
IsBatch b = IsDaemon b.daemon

on_ignored-IsBatch : (i : ℕ) (b : Batch) → IsBatch b → IsBatch (on_ignored i b)
unfolding on_ignored
on_ignored-IsBatch i b h =
    put_watch-IsDaemon b.daemon i _ (same_keys (watch_at b.daemon.watches i) _ refl) h

on_q_overflow-IsBatch :
    (a : Answers) (i : ℕ) (b : Batch) → IsBatch b → IsBatch (on_q_overflow a i b)
unfolding on_q_overflow
on_q_overflow-IsBatch a i b h =
    put_watch-IsDaemon b.daemon i _ (same_keys (watch_at b.daemon.watches i) _ refl) h

past_crash : (c : Bool) (m : Outcome Batch) → Ends IsBatch m → Ends IsBatch (unless_crashed c >> m)
past_crash true m h = tt
past_crash false m h = h

handle_event-IsBatch :
    (a : Answers) (e : Event) (i : ℕ) (b : Batch)
    → i < watch_max
    → IsBatch b
    → Ends IsBatch (handle_event a e i b)
unfolding handle_event
handle_event-IsBatch a e i b lt h =
    let opened = if e.in_open then on_open a i b.daemon else b.daemon in
    let opened_ok = if_all IsDaemon e.in_open (on_open-IsDaemon a i b.daemon h) h in
    past_crash (e.in_open && crashes_on_open a i b.daemon) _ (
      past_crash (e.in_close && crashes_on_close a i opened) _ (
        Ends->>= IsDaemon IsBatch (if e.in_close then on_close a i opened else returns opened) _
          (if_all (Ends IsDaemon) e.in_close (on_close-IsDaemon a i opened lt opened_ok) opened_ok)
          (λ d hd.
            let b1 = record b { daemon = d; was_unmounted = b.was_unmounted || e.in_unmount } in
            let b2 = if e.in_ignored then on_ignored i b1 else b1 in
            let b2_ok = if_all IsBatch e.in_ignored (on_ignored-IsBatch i b1 hd) hd in
            if_all IsBatch e.in_q_overflow (on_q_overflow-IsBatch a i b2 b2_ok) b2_ok)))

match_event_bounds :
    (wd : Handle) (ws : List WatchConfig) → WellFormed ws → match_event wd ws < watch_max
unfolding match_event
match_event_bounds wd ws h =
    go (find_from (λ w. w.is_active && same_handle w.inotify_wd wd) 0 ws)
      (find_from_bounds (λ w. w.is_active && same_handle w.inotify_wd wd) 0 ws)
  where
    go :
        (o : Option ℕ)
        → ((i : ℕ) → o ≡ some i → (0 ≤ i) × (i < 0 + length ws))
        → or_last o < watch_max
    go none bounds = omega arith
    go (some i) bounds = omega (arith, (bounds i refl).1, h.complete)

handle_batch-IsBatch :
    (es : List (Event × Answers)) (b : Batch) → IsBatch b → Ends IsBatch (handle_batch es b)
unfolding handle_batch
handle_batch-IsBatch [] b h = h
handle_batch-IsBatch ((e, a) ∷ es) b h =
    Ends->>= IsBatch IsBatch (handle_event a e (match_event e.wd b.daemon.watches) b) _
      (handle_event-IsBatch a e (match_event e.wd b.daemon.watches) b
        (match_event_bounds e.wd b.daemon.watches h.watches) h)
      (λ b' h'. handle_batch-IsBatch es b' h')

tear_down_watch-SameKeys : (u r : Bool) (w : WatchConfig) → SameKeys w (tear_down_watch u r w)
unfolding tear_down_watch
tear_down_watch-SameKeys u r w = if_all (SameKeys w) (not w.is_active) (SameKeys-refl w) (
    if_all (SameKeys w) (not w.wd_was_destroyed)
      (if_all (SameKeys w) (not u && (not (is_none w.inotify_wd) && r))
        (same_keys w (record w { inotify_wd = none }) refl) (SameKeys-refl w))
      (same_keys w (record w { wd_was_destroyed = false }) refl))

tear_down-Alike :
    (u : Bool) (rm_ok : ℕ → Bool) (i : ℕ) (ws : List WatchConfig)
    → Alike ws (tear_down u rm_ok i ws)
unfolding tear_down
tear_down-Alike u rm_ok i [] = tt
tear_down-Alike u rm_ok i (w ∷ ws) =
    (tear_down_watch-SameKeys u (rm_ok i) w, tear_down-Alike u rm_ok (suc i) ws)

end_batch-IsDaemon : (rm_ok : ℕ → Bool) (b : Batch) → IsBatch b → IsDaemon (end_batch rm_ok b)
end_batch-IsDaemon rm_ok b h = record {
  watches =
      Alike-WellFormed b.daemon.watches (tear_down b.was_unmounted rm_ok 0 b.daemon.watches)
        (tear_down-Alike b.was_unmounted rm_ok 0 b.daemon.watches) h.watches;
  table = h.table;
}

abbrev IsCall : Daemon × Bool → Type 0
IsCall p = IsDaemon p.0

handle_reads-IsDaemon :
    (rs : List Read) (u : Bool) (d : Daemon) → IsDaemon d → Ends IsCall (handle_reads rs u d)
unfolding handle_reads
handle_reads-IsDaemon [] u d h = h
handle_reads-IsDaemon (broken ∷ rs) u d h = tt
handle_reads-IsDaemon (interrupted ∷ rs) u d h = handle_reads-IsDaemon rs u d h
handle_reads-IsDaemon (events es rm_ok ∷ rs) u d h =
    let start : Batch = record { daemon = d; destroyed_wd = false; was_unmounted = u } in
    Ends->>= IsBatch IsCall (handle_batch es start) _ (handle_batch-IsBatch es start h) (λ b hb.
      if_all (Ends IsCall) b.destroyed_wd (end_batch-IsDaemon rm_ok b hb)
        (handle_reads-IsDaemon rs b.was_unmounted b.daemon hb))

-- If a call of handle_events returns, whatever the events, the system's answers and the launches were,
-- a well-formed daemon is well-formed after it: its watches fit their buffers and fill the array, the
-- active ones have their mandatory keys and distinct basenames, and the process table has its full size
-- and holds no watch index twice, nor one that is out of range.
pub handle_events-IsDaemon :
    (rs : List Read) (d d' : Daemon) (restart : Bool)
    → IsDaemon d
    → handle_events rs d ≡ returns (d', restart)
    → IsDaemon d'
unfolding handle_events
handle_events-IsDaemon rs d d' restart h e =
    subst (Ends IsCall) e (handle_reads-IsDaemon rs false d h)
