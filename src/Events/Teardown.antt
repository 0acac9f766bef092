-- ===== src/Events/Teardown.antt =====
-- What the teardown at the end of handle_events leaves, when a watch was destroyed.
use kfmon.Prelude.{
  ℕ, suc, ◌≡◌, refl, Bool, true, false, not, ◌&&◌, List, [], ◌∷◌, arith, if_all, All, Outcome,
  returns, exits, if◌then◌else◌, is_none, none,
}
use mathlib.Core.Path.{subst}
use kfmon.Config.{WatchConfig}
use kfmon.Events.{
  Daemon, tear_down_watch, tear_down, Read, events, broken, interrupted, Batch, handle_batch,
  handle_reads, handle_events,
}
use kfmon.Events.Invariant.{Ends, Ends->>=}

-- No active watch is flagged as destroyed.
abbrev pub IsReset : WatchConfig → Type 0
IsReset w = w.is_active ≡ true → w.wd_was_destroyed ≡ false

-- What holds on both sides of a test, each side knowing how it went.
known {ℓ κ} :
    {A : Type ℓ} (P : A → Type κ) (b : Bool) {x y : A}
    → (b ≡ true → P x)
    → (b ≡ false → P y)
    → P (if b then x else y)
known P true h k = h refl
known P false h k = k refl

ended {ℓ} : {A : Type ℓ} (o : Outcome A) → Ends (λ (a : A). Unit {0}) o
ended (returns a) = tt
ended exits = tt

tear_down_watch-IsReset : (u r : Bool) (w : WatchConfig) → IsReset (tear_down_watch u r w)
unfolding tear_down_watch
tear_down_watch-IsReset u r w =
    known IsReset (not w.is_active) (λ e a. absurd (ground arith))
      (λ e.
        known IsReset (not w.wd_was_destroyed)
          (λ f.
            if_all IsReset (not u && (not (is_none w.inotify_wd) && r))
              {x = record w { inotify_wd = none }} {y = w} (λ a. ground arith) (λ a. ground arith))
          (λ f a. refl))

tear_down-IsReset :
    (u : Bool) (rm_ok : ℕ → Bool) (i : ℕ) (ws : List WatchConfig)
    → All IsReset (tear_down u rm_ok i ws)
unfolding tear_down
tear_down-IsReset u rm_ok i [] = tt
tear_down-IsReset u rm_ok i (w ∷ ws) =
    (tear_down_watch-IsReset u (rm_ok i) w, tear_down-IsReset u rm_ok (suc i) ws)

abbrev IsEnd : Daemon × Bool → Type 0
IsEnd p = p.1 ≡ true → All IsReset p.0.watches

handle_reads-IsReset : (rs : List Read) (u : Bool) (d : Daemon) → Ends IsEnd (handle_reads rs u d)
unfolding handle_reads
handle_reads-IsReset [] u d = λ e. absurd (ground arith)
handle_reads-IsReset (broken ∷ rs) u d = tt
handle_reads-IsReset (interrupted ∷ rs) u d = handle_reads-IsReset rs u d
handle_reads-IsReset (events es rm_ok ∷ rs) u d =
    let start : Batch = record { daemon = d; destroyed_wd = false; was_unmounted = u } in
    Ends->>= (λ (b : Batch). Unit {0}) IsEnd (handle_batch es start) _
      (ended (handle_batch es start))
      (λ b k.
        if_all (Ends IsEnd) b.destroyed_wd
          (λ e. tear_down-IsReset b.was_unmounted rm_ok 0 b.daemon.watches)
          (handle_reads-IsReset rs b.was_unmounted b.daemon))

-- If handle_events asks for a restart of the main loop, because a watch was destroyed, then no active
-- watch is flagged as destroyed any more, whatever the events were and however many watches they
-- destroyed.
pub handle_events-IsReset :
    (rs : List Read) (d d' : Daemon)
    → handle_events rs d ≡ returns (d', true)
    → All IsReset d'.watches
unfolding handle_events
handle_events-IsReset rs d d' e = subst (Ends IsEnd) e (handle_reads-IsReset rs false d) refl
