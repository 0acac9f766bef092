-- ===== src/Client/Chat.antt =====
-- When the client stops listening.
use kfmon.Prelude.{◌≡◌, true, false, List, [], ◌∷◌, ℕ}
use kfmon.Client.{
  Ready, ClientPoll, ready, success, sent, handle_stdin, after_input, replies, after_replies,
  handle_ready, chat,
}

-- If a client's command comes from a pipe that is already closed, and the next poll finds the pipe's end
-- but no reply yet, the client ends with success and prints nothing, whatever would have come after.
pub chat-stdin_hup :
    (first second : Ready) (packet : List ℕ) (ps : List ClientPoll)
    → first.stdin_in ≡ true
    → first.stdin_hup ≡ true
    → handle_stdin first.input ≡ sent packet
    → second.stdin_in ≡ false
    → second.stdin_hup ≡ true
    → second.socket_in ≡ false
    → chat (ready first ∷ ready second ∷ ps)
      ≡ record { sent_packets = packet ∷ []; printed = []; ending = success }
unfolding chat handle_ready after_input replies after_replies
chat-stdin_hup first second packet ps a b c d e f = rw (a, c, d, f, e) (rw (b, after_input))
