-- ===== src/Client.antt =====
-- The client utils/kfmon-ipc.c: a line of stdin as a packet, and the polling loop.
pub mod Packets
pub mod Chat
pub mod Dialogue
pub mod Tests
use Prim.Native.Nat.{◌-◌}
use kfmon.Prelude.{
  ℕ, zero, suc, Bool, true, false, not, ◌&&◌, Option, none, some, List, [], ◌∷◌, ◌++◌, length,
  if◌then◌else◌, ltb, ◌==◌, get_or,
}

-- PIPE_BUF, the size of the buffers of both sides.
abbrev pub pipe_buf : ℕ
pipe_buf = 4096

-- What the system answers to handle_stdin: the bytes that FIONREAD counts (`none` if ioctl fails), the
-- bytes that read_in_full delivers (`none` if it fails), and whether the send succeeds.
pub record Input : Type 0 where
  pub pending : Option ℕ
  pub delivered : Option (List ℕ)
  pub send_ok : Bool

-- How handle_stdin ends: nothing to send (false), a packet that was sent (true), exit(EXIT_FAILURE), or
-- an access past `buf`.
pub data Sending : Type 0 where
  no_data : Sending
  sent : List ℕ → Sending
  aborted : Sending
  overflowed : Sending

-- The first `n` bytes of the zero-initialised buffer.
unfoldable pub first_bytes : ℕ → List ℕ → List ℕ
first_bytes zero text = []
first_bytes (suc n) [] = 0 ∷ first_bytes n []
first_bytes (suc n) (c ∷ text) = c ∷ first_bytes n text

-- The packet: without the final LF, with a NUL in its place or after the last byte, where the buffer
-- has room for it.
unfoldable pub packet_of : ℕ → List ℕ → List ℕ
packet_of bytes text =
    let cut = first_bytes (bytes - 1) text ++ 0 ∷ [] in
    let whole = first_bytes bytes text ++ 0 ∷ [] in
    if get_or text (bytes - 1) 0 == 10 then cut else if ltb bytes pipe_buf then whole else cut

-- After the read. With more bytes than the buffer has, `buf[bytes - 1]` at least is past its end.
unfoldable pub send_input : ℕ → Bool → Option (List ℕ) → Sending
unfolding packet_of
send_input bytes send_ok none = aborted
send_input bytes send_ok (some []) = no_data
send_input bytes send_ok (some (c ∷ text)) =
    if ltb pipe_buf bytes
    then overflowed
    else if send_ok
    then sent (packet_of bytes (c ∷ text))
    else aborted

unfoldable pub handle_pending : Input → Option ℕ → Sending
unfolding send_input
handle_pending i none = aborted
handle_pending i (some bytes) =
    if bytes == 0 then no_data else send_input bytes i.send_ok i.delivered

unfoldable pub handle_stdin : Input → Sending
unfolding handle_pending
handle_stdin i = handle_pending i i.pending

-- handle_reply: a failed read, the end of the stream, or a text that is printed.
pub data Reply : Type 0 where
  read_failed : Reply
  end_of_stream : Reply
  reply : List ℕ → Reply

-- One return of poll: a failure, an interruption, or the bits of both descriptors with what is then
-- read from them.
pub record Ready : Type 0 where
  pub stdin_in : Bool
  pub stdin_hup : Bool
  pub socket_in : Bool
  pub socket_hup : Bool
  pub input : Input
  pub answer : Reply

pub data ClientPoll : Type 0 where
  failed : ClientPoll
  interrupted : ClientPoll
  ready : Ready → ClientPoll

-- How the client ends: `rc` at `cleanup`, exit(EXIT_FAILURE) elsewhere, the access past `buf`; or it
-- still polls.
pub data Ending : Type 0 where
  success epipe enodata poll_failure aborting overflowing still_polling : Ending

-- What the client has sent and printed.
pub record Chatted : Type 0 where
  pub sent_packets : List (List ℕ)
  pub printed : List (List ℕ)
  pub ending : Ending

abbrev pub ends_with : Ending → Chatted
ends_with e = record { sent_packets = []; printed = []; ending = e }

abbrev pub also_sent : List ℕ → Chatted → Chatted
also_sent p c = record c { sent_packets = p ∷ c.sent_packets }

abbrev pub also_printed : List ℕ → Chatted → Chatted
also_printed p c = record c { printed = p ∷ c.printed }

-- The last two tests of an iteration, `rest` being the next ones.
unfoldable pub after_replies : Ready → Chatted → Chatted
after_replies r rest =
    if r.stdin_hup then ends_with success else if r.socket_hup then ends_with epipe else rest

-- The reply, if there is one.
unfoldable pub receive : Ready → Reply → Chatted → Chatted
unfolding after_replies
receive r read_failed rest = ends_with aborting
receive r end_of_stream rest = ends_with (if r.socket_hup then epipe else enodata)
receive r (reply text) rest = also_printed text (after_replies r rest)

unfoldable pub replies : Ready → Chatted → Chatted
unfolding receive
replies r rest = if r.socket_in then receive r r.answer rest else after_replies r rest

-- What was read from stdin; after a pipe was closed, poll comes first again.
unfoldable pub after_input : Ready → Sending → Chatted → Chatted
unfolding replies
after_input r no_data rest = ends_with success
after_input r aborted rest = ends_with aborting
after_input r overflowed rest = ends_with overflowing
after_input r (sent packet) rest = also_sent packet (if r.stdin_hup then rest else replies r rest)

unfoldable pub handle_ready : Ready → Chatted → Chatted
unfolding after_input
handle_ready r rest =
    if r.stdin_in then after_input r (handle_stdin r.input) rest else replies r rest

-- The polling loop.
unfoldable pub chat : List ClientPoll → Chatted
unfolding handle_ready
chat [] = ends_with still_polling
chat (failed ∷ ps) = ends_with poll_failure
chat (interrupted ∷ ps) = chat ps
chat (ready r ∷ ps) = handle_ready r (chat ps)
