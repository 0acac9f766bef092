-- ===== src/AtomicIo/Tests.antt =====
-- Runs of the loops of openssh/atomicio.c.
use kfmon.Prelude.{arith, ◌≡◌, ◌∷◌, [], List, refl, codes}
use kfmon.AtomicIo.{
  max_io, min, skip, prefix, WriteAnswer, ReadAnswer, accepted, arrived, error, returned,
  read_in_full, write_in_full, send_in_full,
}
use kfmon.AtomicIo.Whole.{Delivered, send_in_full-Delivered, send_in_full-returned}
use kfmon.AtomicIo.Received.{Received, stream, read_in_full-Received}

-- Interrupted, then in two parts.
abbrev in_parts : List WriteAnswer
in_parts = WriteAnswer.interrupted ∷ accepted 2 ∷ WriteAnswer.would_block ∷ accepted 7 ∷ []

sends : send_in_full (codes "hello") 5 in_parts ≡ returned 5 (codes "hello")
unfolding send_in_full prefix skip
sends = refl

-- A failure after two bytes.
breaks : write_in_full (codes "hello") 5 (accepted 2 ∷ WriteAnswer.failed ∷ []) ≡ error (codes "he")
unfolding write_in_full prefix skip
breaks = refl

-- Only write_in_full takes 0 for a failure.
zero_write : write_in_full (codes "hi") 2 (accepted 0 ∷ accepted 2 ∷ []) ≡ error []
unfolding write_in_full
zero_write = refl

send_in_full-Delivered_example :
    Delivered (codes "hello") (min 5 max_io) (send_in_full (codes "hello") 5 in_parts)
send_in_full-Delivered_example = send_in_full-Delivered (codes "hello") 5 in_parts

-- Byte by byte.
abbrev in_bytes : List WriteAnswer
in_bytes = accepted 1 ∷ WriteAnswer.interrupted ∷ accepted 1 ∷ accepted 3 ∷ []

send_in_full-returned_example :
    send_in_full (codes "abc") 3 in_bytes
    ≡ returned (min 3 max_io) (prefix (min 3 max_io) (codes "abc"))
send_in_full-returned_example = send_in_full-returned (codes "abc") 3 in_bytes (omega arith)

abbrev pieces : List ReadAnswer
pieces = arrived (codes "he") ∷ ReadAnswer.interrupted ∷ arrived (codes "llo") ∷ []

reads : read_in_full 4 pieces ≡ returned 4 (codes "hell")
unfolding read_in_full prefix
reads = refl

read_in_full-Received_example : Received [] (min 4 max_io) (stream pieces) (read_in_full 4 pieces)
read_in_full-Received_example = read_in_full-Received 4 pieces
