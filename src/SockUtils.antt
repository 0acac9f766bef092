-- ===== src/SockUtils.antt =====
-- utils/sock_utils.c: can the socket still be written to? What poll gives, in turn, is an argument.
pub mod Verdict
pub mod Tests
use kfmon.Prelude.{ℕ, suc, Bool, List, [], ◌∷◌, if◌then◌else◌, leb}

-- -1 with EINTR or another error, 0, or a positive number with revents: POLLHUP and POLLOUT.
pub data Poll : Type 0 where
  interrupted failed timed_out : Poll
  ready : Bool → Bool → Poll

-- EXIT_SUCCESS, EXIT_FAILURE, EPIPE, ETIMEDOUT, or, without a further poll, still in the call.
pub data Writability : Type 0 where
  writable failure broken_pipe gave_up waiting : Writability

-- The loop, after `retry` timeouts.
unfoldable pub poll_loop : ℕ → ℕ → List Poll → Writability
poll_loop attempts retry [] = waiting
poll_loop attempts retry (interrupted ∷ polls) = poll_loop attempts retry polls
poll_loop attempts retry (failed ∷ polls) = failure
poll_loop attempts retry (timed_out ∷ polls) =
    let later = poll_loop attempts (suc retry) polls in
    if leb attempts (suc retry) then gave_up else later
poll_loop attempts retry (ready hup out ∷ polls) =
    let later = poll_loop attempts retry polls in
    if hup
    then broken_pipe
    else if out
    then writable
    else if leb attempts retry
    then gave_up
    else later

unfoldable pub can_write_to_socket : ℕ → List Poll → Writability
unfolding poll_loop
can_write_to_socket attempts polls = poll_loop attempts 0 polls
