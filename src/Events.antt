-- ===== src/Events.antt =====
-- handle_events of kfmon.c: what one inotify event, one read of events, and one call of the handler do.
pub mod Gate
pub mod Liveness
pub mod Invariant
pub mod Teardown
pub mod Tests
use Prim.Native.Nat.{◌-◌}
use kfmon.Prelude.{
  ℕ, suc, Bool, true, false, not, ◌&&◌, ◌||◌, Option, none, some, List, [], ◌∷◌, Handle,
  same_handle, is_none, if◌then◌else◌, ltb, leb, ◌==◌, set, find_from, Outcome, returns, exits,
  ◌>>=◌, ◌>>◌,
}
use kfmon.Process.Table.{ProcessTable, is_watch_already_spawned, is_blocker_running}
use kfmon.Process.Spawn.{Launch, spawn}
use kfmon.Processed.{Database, is_target_processed, crashes}
use kfmon.Config.{WatchConfig, watch_max, watch_at}

-- The globals that the handler reads and writes.
pub record Daemon : Type 0 where
  pub watches : List WatchConfig
  pub table : ProcessTable

-- struct inotify_event, with the bits of its mask that are tested.
pub record Event : Type 0 where
  pub wd : Handle
  pub in_open : Bool
  pub in_close : Bool
  pub in_unmount : Bool
  pub in_ignored : Bool
  pub in_q_overflow : Bool

-- What the system answers while one event is handled: whether the BLOCK file is there and what the
-- database says, on OPEN and on CLOSE; the clock, read twice, the second time with its failure; how the
-- spawn goes; whether inotify_rm_watch succeeds.
pub record Answers : Type 0 where
  pub open_inhibited : Bool
  pub open_database : Database
  pub close_inhibited : Bool
  pub close_database : Database
  pub now : ℕ
  pub stamp : Option ℕ
  pub launch : Launch
  pub rm_ok : Bool

-- The active watch of a descriptor, and the last slot if there is none.
abbrev pub or_last : Option ℕ → ℕ
or_last none = watch_max - 1
or_last (some i) = i

unfoldable pub match_event : Handle → List WatchConfig → ℕ
match_event wd ws = or_last (find_from (λ w. w.is_active && same_handle w.inotify_wd wd) 0 ws)

-- `!is_watch_spawned && !is_blocker_spawned && !is_spawn_blocked`
unfoldable pub may_spawn : Daemon → ℕ → Bool → Bool
may_spawn d i inhibited =
    not (is_watch_already_spawned d.table i)
    && (not (is_blocker_running d.table d.watches) && not inhibited)

abbrev pub put_watch : Daemon → ℕ → WatchConfig → Daemon
put_watch d i w = record d { watches = set d.watches i w }

-- IN_OPEN, if is_target_processed returns: an icon that is not processed yet is flagged.
unfoldable pub on_open : Answers → ℕ → Daemon → Daemon
on_open a i d =
    let w = watch_at d.watches i in
    if may_spawn d i a.open_inhibited
    then put_watch d i
        (record w { pending_processing = not (is_target_processed a.open_database w) })
    else d

-- With a timestamp of the processing, more than ten seconds must have passed.
unfoldable pub is_settled : ℕ → WatchConfig → Bool
is_settled now w = if ltb 0 w.processing_ts then not (leb (now - w.processing_ts) 10) else true

unfoldable pub should_spawn : Answers → WatchConfig → Bool
should_spawn a w =
    (not w.pending_processing && is_target_processed a.close_database w) && is_settled a.now w

-- The first event on an icon that is not ready is remembered.
abbrev pub stamped : WatchConfig → Option ℕ → WatchConfig
stamped w none = w
stamped w (some t) = if w.processing_ts == 0 then record w { processing_ts = t } else w

-- A spawn goes ahead, and the timestamp is cleared.
unfoldable pub launch_watch : Answers → ℕ → Daemon → Outcome Daemon
launch_watch a i d = do
  let w = watch_at d.watches i
  table ← spawn a.launch d.table i
  returns (record { watches = set d.watches i (record w { processing_ts = 0 }); table = table })

-- IN_CLOSE, if is_target_processed returns.
unfoldable pub on_close : Answers → ℕ → Daemon → Outcome Daemon
on_close a i d =
    let w = watch_at d.watches i in
    if may_spawn d i a.close_inhibited
    then (if should_spawn a w
        then launch_watch a i d
        else returns (put_watch d i (stamped w a.stamp)))
    else returns d

-- The daemon and the two flags of the batch.
pub record Batch : Type 0 where
  pub daemon : Daemon
  pub destroyed_wd : Bool
  pub was_unmounted : Bool

-- IN_IGNORED: the watch is gone.
unfoldable pub on_ignored : ℕ → Batch → Batch
on_ignored i b =
    let w = watch_at b.daemon.watches i in
    record b {
      daemon = put_watch b.daemon i (record w { wd_was_destroyed = true });
      destroyed_wd = true;
    }

-- IN_Q_OVERFLOW: the watch is removed.
unfoldable pub on_q_overflow : Answers → ℕ → Batch → Batch
on_q_overflow a i b =
    let w = watch_at b.daemon.watches i in
    record b {
      daemon = put_watch b.daemon i (record w {
        inotify_wd = if a.rm_ok then none else w.inotify_wd;
        wd_was_destroyed = true;
      });
      destroyed_wd = true;
    }

-- Whether is_target_processed is called on OPEN, or CLOSE, and does not return.
unfoldable pub crashes_on_open : Answers → ℕ → Daemon → Bool
crashes_on_open a i d =
    may_spawn d i a.open_inhibited && crashes a.open_database (watch_at d.watches i)

unfoldable pub crashes_on_close : Answers → ℕ → Daemon → Bool
crashes_on_close a i d =
    let w = watch_at d.watches i in
    may_spawn d i a.close_inhibited && (not w.pending_processing && crashes a.close_database w)

-- A crash ends the process.
abbrev pub unless_crashed : Bool → Outcome (Unit {0})
unless_crashed crashed = if crashed then exits else returns tt

-- The bits of one event, in the order of their tests; `i` is the index that was matched.
unfoldable pub handle_event : Answers → Event → ℕ → Batch → Outcome Batch
handle_event a e i b = do
  unless_crashed (e.in_open && crashes_on_open a i b.daemon)
  let opened = if e.in_open then on_open a i b.daemon else b.daemon
  unless_crashed (e.in_close && crashes_on_close a i opened)
  d ← (if e.in_close then on_close a i opened else returns opened)
  let b1 = record b { daemon = d; was_unmounted = b.was_unmounted || e.in_unmount }
  let b2 = if e.in_ignored then on_ignored i b1 else b1
  returns (if e.in_q_overflow then on_q_overflow a i b2 else b2)

-- The events of one read.
unfoldable pub handle_batch : List (Event × Answers) → Batch → Outcome Batch
handle_batch [] b = returns b
handle_batch ((e, a) ∷ es) b = do
  b' ← handle_event a e (match_event e.wd b.daemon.watches) b
  handle_batch es b'

-- After a watch was destroyed: each other active watch is removed too, unless the file system is gone,
-- and the flags are reset. `rm_ok i` is whether inotify_rm_watch succeeds for watch `i`.
unfoldable pub tear_down_watch : Bool → Bool → WatchConfig → WatchConfig
tear_down_watch was_unmounted rm_ok w =
    if not w.is_active
    then w
    else if not w.wd_was_destroyed
    then (if not was_unmounted && (not (is_none w.inotify_wd) && rm_ok)
        then record w { inotify_wd = none }
        else w)
    else record w { wd_was_destroyed = false }

unfoldable pub tear_down : Bool → (ℕ → Bool) → ℕ → List WatchConfig → List WatchConfig
unfolding tear_down_watch
tear_down was_unmounted rm_ok i [] = []
tear_down was_unmounted rm_ok i (w ∷ ws) =
    tear_down_watch was_unmounted (rm_ok i) w ∷ tear_down was_unmounted rm_ok (suc i) ws

-- One `read`: events (with the answers of the teardown that may follow), an error, or an interruption.
pub data Read : Type 0 where
  events : List (Event × Answers) → (ℕ → Bool) → Read
  broken : Read
  interrupted : Read

-- The batch is over: the call ends with `true` if a watch was destroyed.
abbrev pub end_batch : (ℕ → Bool) → Batch → Daemon
end_batch rm_ok b =
    let d = b.daemon in record d { watches = tear_down b.was_unmounted rm_ok 0 d.watches }

-- The reads up to the one that finds nothing (the end of the list). `was_unmounted` outlives a read.
unfoldable pub handle_reads : List Read → Bool → Daemon → Outcome (Daemon × Bool)
handle_reads [] was_unmounted d = returns (d, false)
handle_reads (broken ∷ rs) was_unmounted d = exits
handle_reads (interrupted ∷ rs) was_unmounted d = handle_reads rs was_unmounted d
handle_reads (events es rm_ok ∷ rs) was_unmounted d = do
  b ← handle_batch es (record { daemon = d; destroyed_wd = false; was_unmounted = was_unmounted })
  let rest = handle_reads rs b.was_unmounted b.daemon
  if b.destroyed_wd then returns (end_batch rm_ok b, true) else rest

unfoldable pub handle_events : List Read → Daemon → Outcome (Daemon × Bool)
unfolding handle_reads
handle_events rs d = handle_reads rs false d
