-- ===== src/Events/Gate.antt =====
-- When an event launches an action, and when it does not.
use Prim.Native.Nat.{◌-◌}
use kfmon.Prelude.{
  ℕ, ◌+◌, ◌<◌, ◌≡◌, sym, ap, ◌∙◌, Bool, true, false, not, ◌&&◌, ◌⊎◌, arith, if◌then◌else◌,
  Bool-cases, inl, inr, returns, >>=-eq-returns, set, ltb, leb, length, get_or-set_self,
}
use kfmon.Process.Table.{is_watch_already_spawned, is_blocker_running}
use kfmon.Process.Spawn.{spawn}
use kfmon.Processed.{is_target_processed}
use kfmon.Config.{watch_at, zero_watch}
use kfmon.Events.{
  Daemon, Answers, may_spawn, on_open, on_close, is_settled, should_spawn, launch_watch, put_watch,
}

-- What is true when the close of an icon launches its action.
pub record Allowed (a : Answers) (i : ℕ) (d : Daemon) : Type 0 where
  pub not_running : is_watch_already_spawned d.table i ≡ false
  pub not_blocked : is_blocker_running d.table d.watches ≡ false
  pub not_inhibited : a.close_inhibited ≡ false
  pub not_pending : (watch_at d.watches i).pending_processing ≡ false
  pub processed : is_target_processed a.close_database (watch_at d.watches i) ≡ true
  pub settled :
      ((watch_at d.watches i).processing_ts ≡ 0)
      ⊎ ((watch_at d.watches i).processing_ts + 10 < a.now)

pub launch_watch-table :
    (a : Answers) (i : ℕ) (d d' : Daemon)
    → launch_watch a i d ≡ returns d'
    → spawn a.launch d.table i ≡ returns d'.table
unfolding launch_watch
launch_watch-table a i d d' h =
    let (t, e, f) =
      >>=-eq-returns (spawn a.launch d.table i)
        (λ table. returns (record {
          watches = set d.watches i (record (watch_at d.watches i) { processing_ts = 0 });
          table = table;
        }))
        h in
    let same : t ≡ d'.table = ground arith in e ∙ ap returns same

pub Allowed-of_tests :
    (a : Answers) (i : ℕ) (d : Daemon)
    → may_spawn d i a.close_inhibited ≡ true
    → should_spawn a (watch_at d.watches i) ≡ true
    → Allowed a i d
unfolding may_spawn should_spawn is_settled
Allowed-of_tests a i d m s =
    let w = watch_at d.watches i in
    record {
      not_running = ground arith;
      not_blocked = ground arith;
      not_inhibited = ground arith;
      not_pending = and_not w.pending_processing (is_target_processed a.close_database w) _ s;
      processed = and_mid (not w.pending_processing) (is_target_processed a.close_database w) _ s;
      settled =
          late w.processing_ts a.now
            (and_last (not w.pending_processing) (is_target_processed a.close_database w) _ s);
    }
  where
    and_not : (p q r : Bool) → ((not p && q) && r) ≡ true → p ≡ false
    and_not p q r h = ground arith

    and_mid : (p q r : Bool) → ((p && q) && r) ≡ true → q ≡ true
    and_mid p q r h = ground arith

    and_last : (p q r : Bool) → ((p && q) && r) ≡ true → r ≡ true
    and_last p q r h = ground arith

    late :
        (ts now : ℕ)
        → (if ltb 0 ts then not (leb (now - ts) 10) else true) ≡ true
        → (ts ≡ 0) ⊎ (ts + 10 < now)
    late ts now h = ground arith

-- The close of an icon changes the process table only by the spawn of its own watch, and only if that
-- watch has no process, no blocker runs, the BLOCK file is absent, the icon was not pending and is
-- processed, and more than ten seconds have passed since it was first seen unprocessed, if it was.
pub on_close-Allowed :
    (a : Answers) (i : ℕ) (d d' : Daemon)
    → on_close a i d ≡ returns d'
    → (d'.table ≡ d.table) ⊎ (Allowed a i d × (spawn a.launch d.table i ≡ returns d'.table))
unfolding on_close
on_close-Allowed a i d d' h = elim (Bool-cases (may_spawn d i a.close_inhibited)) [
  | inr m ↦ inl (ground arith)
  | inl m ↦ elim (Bool-cases (should_spawn a (watch_at d.watches i))) [
    | inr s ↦ inl (ground arith)
    | inl s ↦ inr (Allowed-of_tests a i d m s, launch_watch-table a i d d' (ground arith))
  ]
]

-- An icon that was opened while nothing hindered a launch, and was not processed then, is not launched
-- by the close that follows, whatever the database says by then.
pub on_close-on_open :
    (a : Answers) (i : ℕ) (d d' : Daemon)
    → i < length d.watches
    → may_spawn d i a.open_inhibited ≡ true
    → is_target_processed a.open_database (watch_at d.watches i) ≡ false
    → on_close a i (on_open a i d) ≡ returns d'
    → d'.table ≡ d.table
unfolding on_open
on_close-on_open a i d d' lt m p h =
    let w = watch_at d.watches i in
    let opened = put_watch d i (record w { pending_processing = true }) in
    let same : on_open a i d ≡ opened = rw (m, p, on_open) in
    elim (on_close-Allowed a i opened d' (ap (on_close a i) (sym same) ∙ h)) [
      | inl e ↦ e
      | inr (allowed, e) ↦ absurd (
          ground (
            arith,
            allowed.not_pending,
            get_or-set_self d.watches i (record w { pending_processing = true }) zero_watch lt,
          ))
    ]
