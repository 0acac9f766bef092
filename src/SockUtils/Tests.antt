-- ===== src/SockUtils/Tests.antt =====
-- Runs of can_write_to_socket.
use kfmon.Prelude.{◌≡◌, true, false, ◌∷◌, [], refl}
use kfmon.SockUtils.{
  interrupted, timed_out, ready, writable, broken_pipe, gave_up, can_write_to_socket,
}

second_try : can_write_to_socket 2 (timed_out ∷ interrupted ∷ ready false true ∷ []) ≡ writable
unfolding can_write_to_socket
second_try = refl

no_try_left : can_write_to_socket 2 (timed_out ∷ timed_out ∷ ready false true ∷ []) ≡ gave_up
unfolding can_write_to_socket
no_try_left = refl

hung_up : can_write_to_socket 2 (ready true true ∷ []) ≡ broken_pipe
unfolding can_write_to_socket
hung_up = refl
