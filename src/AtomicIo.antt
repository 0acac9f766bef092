-- ===== src/AtomicIo.antt =====
-- openssh/atomicio.c: read and write with retries, and the loops that move a whole buffer. What the
-- system calls answer, in turn, is an argument; a call that is interrupted or would block is made again.
pub mod Whole
pub mod Received
pub mod Tests
use kfmon.Prelude.{
  ℕ, zero, suc, ◌+◌, ◌-◌, Bool, true, false, List, [], ◌∷◌, ◌++◌, CString, if◌then◌else◌, ltb, leb,
  length,
}

-- MAX_IO_BUFSIZ
abbrev pub max_io : ℕ
max_io = 8388608

abbrev pub min : ℕ → ℕ → ℕ
min a b = if leb a b then a else b

-- `buf + n`, and its first bytes.
unfoldable pub skip : ℕ → CString → CString
skip zero s = s
skip (suc n) [] = []
skip (suc n) (c ∷ s) = skip n s

unfoldable pub prefix : ℕ → CString → CString
prefix zero s = []
prefix (suc n) [] = []
prefix (suc n) (c ∷ s) = c ∷ prefix n s

-- EINTR, EAGAIN (after which poll waits), another error, or so many bytes. No call moves more bytes than
-- it is asked to.
pub data WriteAnswer : Type 0 where
  interrupted would_block failed : WriteAnswer
  accepted : ℕ → WriteAnswer

-- `arrived []` is the end of the file.
pub data ReadAnswer : Type 0 where
  interrupted would_block failed : ReadAnswer
  arrived : CString → ReadAnswer

-- -1, a number of bytes, or, without a further answer, still in the call. With it, the bytes that were
-- moved, in their order.
pub data Moved : Type 0 where
  error : CString → Moved
  returned : ℕ → CString → Moved
  waiting : CString → Moved

unfoldable pub xread : ℕ → List ReadAnswer → Moved
xread len [] = waiting []
xread len (ReadAnswer.interrupted ∷ answers) = xread len answers
xread len (ReadAnswer.would_block ∷ answers) = xread len answers
xread len (ReadAnswer.failed ∷ answers) = error []
xread len (arrived bytes ∷ answers) =
    let got = prefix (min len max_io) bytes in returned (length got) got

unfoldable pub xwrite : CString → ℕ → List WriteAnswer → Moved
xwrite buf len [] = waiting []
xwrite buf len (WriteAnswer.interrupted ∷ answers) = xwrite buf len answers
xwrite buf len (WriteAnswer.would_block ∷ answers) = xwrite buf len answers
xwrite buf len (WriteAnswer.failed ∷ answers) = error []
xwrite buf len (accepted n ∷ answers) = let m = min n (min len max_io) in returned m (prefix m buf)

-- The loop of read_in_full, `len - pos` bytes before its end; `got` is what the buffer holds.
unfoldable pub read_loop : ℕ → ℕ → CString → List ReadAnswer → Moved
read_loop len pos got [] = if ltb pos len then waiting got else returned pos got
read_loop len pos got (ReadAnswer.interrupted ∷ answers) = read_loop len pos got answers
read_loop len pos got (ReadAnswer.would_block ∷ answers) = read_loop len pos got answers
read_loop len pos got (ReadAnswer.failed ∷ answers) =
    if ltb pos len then error got else returned pos got
read_loop len pos got (arrived [] ∷ answers) = returned pos got
read_loop len pos got (arrived (c ∷ bytes) ∷ answers) =
    let more = prefix (len - pos) (c ∷ bytes) in
    let later = read_loop len (pos + length more) (got ++ more) answers in
    if ltb pos len then later else returned pos got

unfoldable pub read_in_full : ℕ → List ReadAnswer → Moved
unfolding read_loop
read_in_full len answers = read_loop (min len max_io) 0 [] answers

-- The loop of write_in_full and send_in_full; only the former takes 0 for an error (`strict`).
unfoldable pub write_loop : Bool → CString → ℕ → ℕ → CString → List WriteAnswer → Moved
write_loop strict buf len pos out [] = if ltb pos len then waiting out else returned pos out
write_loop strict buf len pos out (WriteAnswer.interrupted ∷ answers) =
    write_loop strict buf len pos out answers
write_loop strict buf len pos out (WriteAnswer.would_block ∷ answers) =
    write_loop strict buf len pos out answers
write_loop strict buf len pos out (WriteAnswer.failed ∷ answers) =
    if ltb pos len then error out else returned pos out
write_loop strict buf len pos out (accepted zero ∷ answers) =
    let later = write_loop strict buf len pos out answers in
    if ltb pos len then (if strict then error out else later) else returned pos out
write_loop strict buf len pos out (accepted (suc n) ∷ answers) =
    let m = min (suc n) (len - pos) in
    let later = write_loop strict buf len (pos + m) (out ++ prefix m (skip pos buf)) answers in
    if ltb pos len then later else returned pos out

unfoldable pub write_in_full : CString → ℕ → List WriteAnswer → Moved
unfolding write_loop
write_in_full buf len answers = write_loop true buf (min len max_io) 0 [] answers

unfoldable pub send_in_full : CString → ℕ → List WriteAnswer → Moved
unfolding write_loop
send_in_full buf len answers = write_loop false buf (min len max_io) 0 [] answers
