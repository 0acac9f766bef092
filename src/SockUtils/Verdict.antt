-- ===== src/SockUtils/Verdict.antt =====
-- What the verdict of can_write_to_socket of utils/sock_utils.c means.
use kfmon.Prelude.{ℕ, suc, ◌+◌, ◌<◌, ◌≡◌, ap, ◌∙◌, true, false, List, [], ◌∷◌, ◌++◌, leb, arith}
use kfmon.SockUtils.{
  Poll, interrupted, failed, timed_out, ready, Writability, writable, failure, broken_pipe, gave_up,
  poll_loop, can_write_to_socket,
}

-- The polls before the one that decides: interrupted, timed out, or ready for nothing of interest.
abbrev pub idle_timeouts : List Poll → ℕ
idle_timeouts [] = 0
idle_timeouts (timed_out ∷ polls) = suc (idle_timeouts polls)
idle_timeouts (interrupted ∷ polls) = idle_timeouts polls
idle_timeouts (failed ∷ polls) = idle_timeouts polls
idle_timeouts (ready hup out ∷ polls) = idle_timeouts polls

abbrev pub IsIdle : Poll → Type 0
IsIdle interrupted = Unit {0}
IsIdle timed_out = Unit {0}
IsIdle failed = ⊥
IsIdle (ready hup out) = (hup ≡ false) × (out ≡ false)

abbrev pub AreIdle : List Poll → Type 0
AreIdle [] = Unit {0}
AreIdle (p ∷ polls) = IsIdle p × AreIdle polls

-- The poll that decides, and how: it tells of POLLHUP, or of POLLOUT alone, or of an error.
abbrev pub Decides : Poll → Writability → Type 0
Decides (ready true out) s = s ≡ broken_pipe
Decides (ready false true) s = s ≡ writable
Decides (ready false false) s = ⊥
Decides failed s = s ≡ failure
Decides interrupted s = ⊥
Decides timed_out s = ⊥

-- Idle polls with fewer timeouts than attempts only count.
poll_loop-idle :
    (attempts retry : ℕ) (before after : List Poll)
    → AreIdle before
    → retry + idle_timeouts before < attempts
    → poll_loop attempts retry (before ++ after)
      ≡ poll_loop attempts (retry + idle_timeouts before) after
unfolding poll_loop
poll_loop-idle attempts retry [] after i h =
    ap (λ (k : ℕ). poll_loop attempts k after) (omega arith)
poll_loop-idle attempts retry (interrupted ∷ before) after i h =
    poll_loop-idle attempts retry before after i.1 h
poll_loop-idle attempts retry (failed ∷ before) after i h = elim i.0 [ ]
poll_loop-idle attempts retry (timed_out ∷ before) after i h =
    let more : leb attempts (suc retry) ≡ false = ground arith in
    let counted : suc retry + idle_timeouts before ≡ retry + suc (idle_timeouts before) =
      omega arith in
    rw more (
      poll_loop-idle attempts (suc retry) before after i.1 (omega arith)
      ∙ ap (λ (k : ℕ). poll_loop attempts k after) counted)
poll_loop-idle attempts retry (ready hup out ∷ before) after i h =
    let more : leb attempts retry ≡ false = ground arith in
    rw (i.0.0, i.0.1, more) (poll_loop-idle attempts retry before after i.1 h)

last_timeout :
    (attempts retry : ℕ) (after : List Poll)
    → suc retry ≡ attempts
    → poll_loop attempts retry (timed_out ∷ after) ≡ gave_up
unfolding poll_loop
last_timeout attempts retry after e = ground arith

poll_loop-Decides :
    (attempts retry : ℕ) (p : Poll) (after : List Poll) (s : Writability)
    → Decides p s
    → poll_loop attempts retry (p ∷ after) ≡ s
unfolding poll_loop
poll_loop-Decides attempts retry (ready true out) after s d = ground arith
poll_loop-Decides attempts retry (ready false true) after s d = ground arith
poll_loop-Decides attempts retry (ready false false) after s d = elim d [ ]
poll_loop-Decides attempts retry failed after s d = ground arith
poll_loop-Decides attempts retry interrupted after s d = elim d [ ]
poll_loop-Decides attempts retry timed_out after s d = elim d [ ]

-- After idle polls with fewer timeouts than attempts: a poll that shows POLLHUP, POLLOUT alone or an
-- error decides the result, and a timeout that uses up the attempts ends the call with ETIMEDOUT.
pub can_write_to_socket-verdict :
    (attempts : ℕ) (before after : List Poll) (p : Poll) (s : Writability)
    → AreIdle before
    → idle_timeouts before < attempts
    → (Decides p s → can_write_to_socket attempts (before ++ p ∷ after) ≡ s)
      × (suc (idle_timeouts before) ≡ attempts
          → can_write_to_socket attempts (before ++ timed_out ∷ after) ≡ gave_up)
unfolding can_write_to_socket
can_write_to_socket-verdict attempts before after p s i h = (
  λ d.
      poll_loop-idle attempts 0 before (p ∷ after) i (omega arith)
      ∙ poll_loop-Decides attempts (0 + idle_timeouts before) p after s d,
  λ e.
      poll_loop-idle attempts 0 before (timed_out ∷ after) i (omega arith)
      ∙ last_timeout attempts (0 + idle_timeouts before) after (omega (arith, e)),
)
