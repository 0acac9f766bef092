-- ===== src/Client/Dialogue.antt =====
-- The client and the daemon together: from a line of a listing to the launch.
use kfmon.Prelude.{
  ℕ, ◌<◌, ◌≡◌, ap, ◌∙◌, Bool, true, false, some, List, ◌++◌, CString, IsCString, length, get_elem?,
}
use kfmon.Config.{WatchConfig}
use kfmon.Config.Value.{starts_with_digit}
use kfmon.Processed.{decimal}
use kfmon.Events.{Daemon}
use kfmon.Events.Invariant.{IsDaemon}
use kfmon.Ipc.{Answers, message, handle_ipc}
use kfmon.Ipc.RoundTrip.{start_text, requests, handle_ipc-start}
use kfmon.Client.{Input, pipe_buf, sent, handle_stdin}
use kfmon.Client.Packets.{received, Typed, handle_stdin-received}

-- What is typed to start the watch that a listing shows at an index, with the rest of its line.
abbrev pub start_command : Bool → ℕ → CString → CString
start_command force i rest = start_text force ++ (decimal i ++ rest)

-- A start or force-start command with the index of an active watch as a listing prints it, typed at the
-- client with or without the rest of the listed line, reaches the daemon as the request for that watch.
pub handle_stdin-handle_ipc :
    (input : Input) (typed : List ℕ) (a : Answers) (d : Daemon) (force : Bool) (i : ℕ)
    (w : WatchConfig) (rest : CString)
    → IsDaemon d
    → get_elem? d.watches i ≡ some w
    → w.is_active ≡ true
    → starts_with_digit rest ≡ false
    → IsCString (start_command force i rest)
    → length (start_command force i rest) < pipe_buf
    → Typed (start_command force i rest) typed
    → input.pending ≡ some (length typed)
    → input.delivered ≡ some typed
    → input.send_ok ≡ true
    → (packet : List ℕ) × (handle_stdin input ≡ sent packet)
      × (handle_ipc a d (message (received packet))
          ≡ requests a d (start_command force i rest) force i)
handle_stdin-handle_ipc input typed a d force i w rest h e act r c lt t p q o =
    let (packet, f, g) =
      handle_stdin-received input (start_command force i rest) typed c lt t p q o in
    (
      packet,
      f,
      ap (λ buf. handle_ipc a d (message buf)) g ∙ handle_ipc-start a d force i w rest h e act r,
    )
