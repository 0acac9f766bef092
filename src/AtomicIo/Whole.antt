-- ===== src/AtomicIo/Whole.antt =====
-- The loops of openssh/atomicio.c move the whole buffer, in order, or say that they did not.
use kfmon.Prelude.{
  ℕ, zero, suc, ◌+◌, ◌-◌, ◌≤◌, ◌<◌, ◌≡◌, refl, sym, ap, ◌∙◌, Bool, true, false, List, [], ◌∷◌, ◌++◌,
  CString, if◌then◌else◌, ltb, arith, Bool-cases, inl, inr, if_all,
}
use kfmon.AtomicIo.{
  max_io, min, skip, prefix, WriteAnswer, accepted, Moved, error, returned, waiting, write_loop,
  write_in_full, send_in_full,
}

prefix-nil : (n : ℕ) → prefix n [] ≡ []
unfolding prefix
prefix-nil zero = refl
prefix-nil (suc n) = refl

suc_plus : (n m : ℕ) → suc (n + m) ≡ suc n + m
suc_plus n m = omega arith

prefix-append-skip : (n m : ℕ) (s : CString) → prefix n s ++ prefix m (skip n s) ≡ prefix (n + m) s
unfolding prefix skip
prefix-append-skip zero m s = ground arith
prefix-append-skip (suc n) m [] = prefix-nil m ∙ sym (prefix-nil (suc n + m))
prefix-append-skip (suc n) m (c ∷ s) =
    ap (λ (t : CString). c ∷ t) (prefix-append-skip n m s)
    ∙ ap (λ (k : ℕ). prefix k (c ∷ s)) (suc_plus n m)

-- What the other side got, and whether the code says so: a whole that is complete, or a part that is not
-- called complete.
abbrev pub Delivered : CString → ℕ → Moved → Type 0
Delivered buf len (returned pos out) = (pos ≡ len) × (out ≡ prefix len buf)
Delivered buf len (error out) = (pos : ℕ) × (pos < len) × (out ≡ prefix pos buf)
Delivered buf len (waiting out) = (pos : ℕ) × (pos < len) × (out ≡ prefix pos buf)

module _ (strict : Bool) (buf : CString) (len : ℕ) where
  -- Where the loop's test decides.
  tested :
      (pos : ℕ) (out : CString) (m : Moved)
      → pos ≤ len
      → out ≡ prefix pos buf
      → (pos < len → Delivered buf len m)
      → Delivered buf len (if ltb pos len then m else returned pos out)
  tested pos out m h e inside = elim (Bool-cases (ltb pos len)) [
    | inl t ↦ rw t (inside (ground arith))
    | inr t ↦ let all : pos ≡ len = ground arith in rw t (all, e ∙ ap (λ (k : ℕ). prefix k buf) all)
  ]

  write_loop-Delivered :
      (pos : ℕ) (out : CString) (answers : List WriteAnswer)
      → pos ≤ len
      → out ≡ prefix pos buf
      → Delivered buf len (write_loop strict buf len pos out answers)
  unfolding write_loop
  write_loop-Delivered pos out [] h e = tested pos out (waiting out) h e (λ l. (pos, l, e))
  write_loop-Delivered pos out (WriteAnswer.interrupted ∷ answers) h e =
      write_loop-Delivered pos out answers h e
  write_loop-Delivered pos out (WriteAnswer.would_block ∷ answers) h e =
      write_loop-Delivered pos out answers h e
  write_loop-Delivered pos out (WriteAnswer.failed ∷ answers) h e =
      tested pos out (error out) h e (λ l. (pos, l, e))
  write_loop-Delivered pos out (accepted zero ∷ answers) h e = tested pos out _ h e (λ l.
      if_all (Delivered buf len) strict (pos, l, e) (write_loop-Delivered pos out answers h e))
  write_loop-Delivered pos out (accepted (suc n) ∷ answers) h e =
      let m = min (suc n) (len - pos) in
      tested pos out _ h e (λ l.
        write_loop-Delivered (pos + m) (out ++ prefix m (skip pos buf)) answers (ground arith)
          (ap (λ (s : CString). s ++ prefix m (skip pos buf)) e ∙ prefix-append-skip pos m buf))

-- How many of the answers accept something, before the first failure.
abbrev pub acceptances : List WriteAnswer → ℕ
acceptances [] = 0
acceptances (WriteAnswer.interrupted ∷ answers) = acceptances answers
acceptances (WriteAnswer.would_block ∷ answers) = acceptances answers
acceptances (WriteAnswer.failed ∷ answers) = 0
acceptances (accepted zero ∷ answers) = acceptances answers
acceptances (accepted (suc n) ∷ answers) = suc (acceptances answers)

abbrev pub IsReturned : Moved → Type 0
IsReturned (returned pos out) = Unit {0}
IsReturned (error out) = ⊥
IsReturned (waiting out) = ⊥

not_below : (pos len : ℕ) → len ≤ pos → ltb pos len ≡ false
not_below pos len h = ground arith

write_loop-IsReturned :
    (buf : CString) (len pos : ℕ) (out : CString) (answers : List WriteAnswer)
    → len ≤ pos + acceptances answers
    → IsReturned (write_loop false buf len pos out answers)
unfolding write_loop
write_loop-IsReturned buf len pos out [] h = rw (not_below pos len (omega arith)) tt
write_loop-IsReturned buf len pos out (WriteAnswer.interrupted ∷ answers) h =
    write_loop-IsReturned buf len pos out answers h
write_loop-IsReturned buf len pos out (WriteAnswer.would_block ∷ answers) h =
    write_loop-IsReturned buf len pos out answers h
write_loop-IsReturned buf len pos out (WriteAnswer.failed ∷ answers) h =
    rw (not_below pos len (omega arith)) tt
write_loop-IsReturned buf len pos out (accepted zero ∷ answers) h =
    if_all IsReturned (ltb pos len) (write_loop-IsReturned buf len pos out answers h) tt
write_loop-IsReturned buf len pos out (accepted (suc n) ∷ answers) h =
    elim (Bool-cases (ltb pos len)) [
      | inl e ↦ rw e (
          let m = min (suc n) (len - pos) in
          write_loop-IsReturned buf len (pos + m) (out ++ prefix m (skip pos buf)) answers
            (ground arith))
      | inr e ↦ rw e tt
    ]

-- Whatever the calls of send answer: a number that send_in_full returns is the length asked for (8 MiB
-- at most), and the other side got that much of the buffer, in order; if it fails, or is still in a
-- call, the other side got a shorter part of the buffer's front.
pub send_in_full-Delivered :
    (buf : CString) (len : ℕ) (answers : List WriteAnswer)
    → Delivered buf (min len max_io) (send_in_full buf len answers)
unfolding send_in_full
send_in_full-Delivered buf len answers =
    write_loop-Delivered false buf (min len max_io) 0 [] answers (omega arith)
      (unfold prefix in refl)

returned_whole :
    (buf : CString) (len : ℕ) (m : Moved)
    → IsReturned m
    → Delivered buf len m
    → m ≡ returned len (prefix len buf)
returned_whole buf len (returned pos out) r d = λ i. returned (d.0 i) (d.1 i)
returned_whole buf len (error out) r d = elim r [ ]
returned_whole buf len (waiting out) r d = elim r [ ]

-- Once as many calls of send as there are bytes have accepted something, if none failed before,
-- send_in_full returns, and the other side got the whole of the buffer (8 MiB at most); interrupted
-- calls, calls that would block and calls that accept nothing do no harm.
pub send_in_full-returned :
    (buf : CString) (len : ℕ) (answers : List WriteAnswer)
    → len ≤ acceptances answers
    → send_in_full buf len answers ≡ returned (min len max_io) (prefix (min len max_io) buf)
send_in_full-returned buf len answers h =
    returned_whole buf (min len max_io) (send_in_full buf len answers)
      (unfold send_in_full in
        write_loop-IsReturned buf (min len max_io) 0 [] answers (ground arith))
      (send_in_full-Delivered buf len answers)

-- The same for what write_in_full says of the bytes written.
pub write_in_full-Delivered :
    (buf : CString) (len : ℕ) (answers : List WriteAnswer)
    → Delivered buf (min len max_io) (write_in_full buf len answers)
unfolding write_in_full
write_in_full-Delivered buf len answers =
    write_loop-Delivered true buf (min len max_io) 0 [] answers (omega arith)
      (unfold prefix in refl)
