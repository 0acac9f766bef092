-- ===== src/Events/Liveness.antt =====
-- An event that may launch an action does launch it.
use Prim.Native.Nat.{◌-◌}
use kfmon.Prelude.{
  ℕ, ◌+◌, ◌<◌, ◌≡◌, refl, true, not, ◌⊎◌, arith, if◌then◌else◌, some, returns, set, ltb, leb,
}
use kfmon.Process.Table.{ProcessTable}
use kfmon.Process.Spawn.{IsTable, Launched, spawn-Launched}
use kfmon.Config.{watch_at, watch_max}
use kfmon.Events.{Daemon, Answers, may_spawn, on_close, is_settled, should_spawn, launch_watch}
use kfmon.Events.Gate.{Allowed}

settled_test :
    (ts now : ℕ)
    → (ts ≡ 0) ⊎ (ts + 10 < now)
    → (if ltb 0 ts then not (leb (now - ts) 10) else true) ≡ true
settled_test ts now h = ground arith

tests-of_Allowed :
    (a : Answers) (i : ℕ) (d : Daemon)
    → Allowed a i d
    → (may_spawn d i a.close_inhibited ≡ true) × (should_spawn a (watch_at d.watches i) ≡ true)
unfolding may_spawn should_spawn is_settled
tests-of_Allowed a i d h =
    let w = watch_at d.watches i in
    (
      rw (h.not_running, h.not_blocked, h.not_inhibited) refl,
      rw (h.not_pending, h.processed) (settled_test w.processing_ts a.now h.settled),
    )

-- When fork and thread succeed, the close of an icon for which nothing forbids it does launch the action
-- of its watch, unless the daemon crashes on a NULL title before that: the event is handled, the
-- timestamp is cleared, the table stays well-formed, and holds the watch with the child's pid.
pub on_close-launches :
    (a : Answers) (i pid : ℕ) (d : Daemon)
    → IsTable d.table
    → i < watch_max
    → a.launch ≡ record { fork_pid = some pid; thread_ok = true }
    → Allowed a i d
    → (t : ProcessTable) × (on_close a i d
        ≡ returns (record {
          watches = set d.watches i (record (watch_at d.watches i) { processing_ts = 0 });
          table = t;
        }))
      × Launched d.table i pid t
unfolding on_close launch_watch
on_close-launches a i pid d s lt l h =
    let (m, p) = tests-of_Allowed a i d h in
    let (t, e, launched) = spawn-Launched d.table i pid s lt h.not_running in
    (t, rw (m, p, l, e) refl, launched)
