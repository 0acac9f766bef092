-- ===== src/Client/Tests.antt =====
-- A line typed at the client, and a command that comes from a closed pipe.
use kfmon.Prelude.{
  ◌≡◌, refl, true, false, some, inl, List, [], ◌∷◌, ◌++◌, ℕ, arith, codes, IsCString, length,
}
use kfmon.Config.Tests.{one_watch}
use kfmon.Config.Value.{starts_with_digit}
use kfmon.Processed.{decimal}
use kfmon.Ipc.{message, handle_ipc}
use kfmon.Ipc.RoundTrip.{requests}
use kfmon.Ipc.Tests.{start, start-IsDaemon, willing}
use kfmon.Client.{
  Input, Ready, ready, reply, sent, overflowed, success, handle_stdin, handle_pending, send_input,
  packet_of, first_bytes, chat, end_of_stream,
}
use kfmon.Client.Packets.{received}
use kfmon.Client.Chat.{chat-stdin_hup}
use kfmon.Client.Dialogue.{start_command, handle_stdin-handle_ipc}

abbrev list_line : List ℕ
list_line = codes "list" ++ 10 ∷ []

abbrev list_input : Input
list_input = record { pending = some 5; delivered = some list_line; send_ok = true }

abbrev start_line : List ℕ
start_line = start_command false 0 [] ++ 10 ∷ []

abbrev start_input : Input
start_input = record {
  pending = some (length start_line);
  delivered = some start_line;
  send_ok = true;
}

start_clean : IsCString (start_command false 0 [])
unfolding decimal
start_clean = (
  (λ e. omega arith),
  (
    (λ e. omega arith),
    (
      (λ e. omega arith),
      ((λ e. omega arith), ((λ e. omega arith), ((λ e. omega arith), ((λ e. omega arith), tt)))),
    ),
  ),
)

handle_stdin-handle_ipc_example :
    (packet : List ℕ) × (handle_stdin start_input ≡ sent packet)
    × (handle_ipc willing start (message (received packet))
        ≡ requests willing start (start_command false 0 []) false 0)
unfolding starts_with_digit decimal
handle_stdin-handle_ipc_example =
    handle_stdin-handle_ipc start_input start_line willing start false 0 one_watch [] start-IsDaemon
      refl refl refl start_clean (omega arith) (inl refl) refl refl refl

-- More bytes than the buffer has.
too_many :
    handle_stdin (record { pending = some 4097; delivered = some (b'a' ∷ []); send_ok = true })
    ≡ overflowed
unfolding handle_stdin handle_pending send_input
too_many = refl

abbrev from_pipe : Ready
from_pipe = record {
  stdin_in = true;
  stdin_hup = true;
  socket_in = false;
  socket_hup = false;
  input = list_input;
  answer = end_of_stream;
}

abbrev pipe_closed : Ready
pipe_closed = record from_pipe { stdin_in = false }

abbrev replied : Ready
replied = record pipe_closed { socket_in = true; answer = reply (codes "OK") }

abbrev list_packet : List ℕ
list_packet = codes "list" ++ 0 ∷ []

list_sent : handle_stdin list_input ≡ sent list_packet
unfolding handle_stdin handle_pending send_input packet_of first_bytes
list_sent = refl

chat-stdin_hup_example :
    chat (ready from_pipe ∷ ready pipe_closed ∷ ready replied ∷ [])
    ≡ record { sent_packets = list_packet ∷ []; printed = []; ending = success }
chat-stdin_hup_example =
    chat-stdin_hup from_pipe pipe_closed list_packet (ready replied ∷ []) refl refl list_sent refl
      refl refl
