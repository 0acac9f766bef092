-- ===== src/AtomicIo/Received.antt =====
-- What read_in_full of openssh/atomicio.c puts into the buffer.
use kfmon.Prelude.{
  ℕ, zero, suc, ◌+◌, ◌-◌, ◌≤◌, ◌<◌, ◌≡◌, refl, sym, ap, ◌∙◌, List, [], ◌∷◌, ◌++◌, CString,
  if◌then◌else◌, ltb, length, length-append, arith, Bool-cases, inl, inr,
}
use mathlib.Core.Path.{subst}
use mathlib.Core.List.{append-nil, append_assoc}
use kfmon.AtomicIo.{
  max_io, min, prefix, ReadAnswer, arrived, Moved, error, returned, waiting, read_loop,
  read_in_full,
}

-- All that arrives before the file's end or a failure.
abbrev pub stream : List ReadAnswer → CString
stream [] = []
stream (ReadAnswer.interrupted ∷ answers) = stream answers
stream (ReadAnswer.would_block ∷ answers) = stream answers
stream (ReadAnswer.failed ∷ answers) = []
stream (arrived [] ∷ answers) = []
stream (arrived (c ∷ bytes) ∷ answers) = (c ∷ bytes) ++ stream answers

-- `got`, which was in the buffer, then the stream up to the length asked for.
abbrev pub Received : CString → ℕ → CString → Moved → Type 0
Received got len rest (returned pos out) =
    (pos ≡ length out) × (out ≡ got ++ prefix (len - length got) rest)
Received got len rest (error out) =
    (length out < len) × (out ≡ got ++ prefix (len - length got) rest)
Received got len rest (waiting out) =
    (length out < len) × (out ≡ got ++ prefix (len - length got) rest)

length-prefix : (n : ℕ) (s : CString) → length (prefix n s) ≡ min n (length s)
unfolding prefix
length-prefix zero s = ground arith
length-prefix (suc n) [] = ground arith
length-prefix (suc n) (c ∷ s) = ground (arith, length-prefix n s)

prefix-nil : (n : ℕ) → prefix n [] ≡ []
unfolding prefix
prefix-nil zero = refl
prefix-nil (suc n) = refl

minus_zero : (n : ℕ) → n ≡ n - 0
minus_zero n = omega arith

minus_suc : (n k : ℕ) → n - k ≡ suc n - suc k
minus_suc n k = omega arith

-- What is left to take after a first part.
prefix-append :
    (n : ℕ) (s t : CString) → prefix n (s ++ t) ≡ prefix n s ++ prefix (n - length (prefix n s)) t
unfolding prefix
prefix-append zero s t = refl
prefix-append (suc n) [] t = ap (λ (k : ℕ). prefix k t) (minus_zero (suc n))
prefix-append (suc n) (c ∷ s) t =
    ap (λ (r : CString). c ∷ r)
      (prefix-append n s t
        ∙ ap (λ (k : ℕ). prefix n s ++ prefix k t) (minus_suc n (length (prefix n s))))

Received-more :
    (got rest bytes : CString) (len : ℕ) (m : Moved)
    → Received (got ++ prefix (len - length got) bytes) len rest m
    → Received got len (bytes ++ rest) m
Received-more got rest bytes len m h =
    let room = len - length got in
    let more = prefix room bytes in
    let left : len - length (got ++ more) ≡ room - length more =
      omega (arith, length-append got more) in
    let same : (got ++ more) ++ prefix (len - length (got ++ more)) rest
        ≡ got ++ prefix room (bytes ++ rest) =
      append_assoc got more (prefix (len - length (got ++ more)) rest)
      ∙ ap (λ (k : ℕ). got ++ (more ++ prefix k rest)) left
      ∙ ap (λ (s : CString). got ++ s) (sym (prefix-append room bytes rest)) in
    shift m same h
  where
    shift :
        (m : Moved)
        → (got ++ prefix (len - length got) bytes)
            ++ prefix (len - length (got ++ prefix (len - length got) bytes)) rest
          ≡ got ++ prefix (len - length got) (bytes ++ rest)
        → Received (got ++ prefix (len - length got) bytes) len rest m
        → Received got len (bytes ++ rest) m
    shift (returned pos out) same h = (h.0, h.1 ∙ same)
    shift (error out) same h = (h.0, h.1 ∙ same)
    shift (waiting out) same h = (h.0, h.1 ∙ same)

nothing_left :
    (got rest : CString) (len : ℕ) → len ≤ length got → got ≡ got ++ prefix (len - length got) rest
nothing_left got rest len h =
    sym (append-nil got)
    ∙ ap (λ (s : CString). got ++ s) (none_left rest (len - length got) (omega arith))
  where
    none_left : (rest : CString) (k : ℕ) → k ≡ 0 → [] ≡ prefix k rest
    none_left rest k e = rw e (unfold prefix in refl)

nothing_came : (got : CString) (n : ℕ) → got ≡ got ++ prefix n []
nothing_came got n = sym (append-nil got) ∙ ap (λ (s : CString). got ++ s) (sym (prefix-nil n))

module _ (len : ℕ) where
  -- Where the loop's test decides.
  tested :
      (got rest : CString) (m : Moved) (pos : ℕ)
      → pos ≡ length got
      → (pos < len → Received got len rest m)
      → Received got len rest (if ltb pos len then m else returned pos got)
  tested got rest m pos e inside = elim (Bool-cases (ltb pos len)) [
    | inl t ↦ rw t (inside (ground arith))
    | inr t ↦ rw t (e, nothing_left got rest len (ground arith))
  ]

  read_loop-Received :
      (pos : ℕ) (got : CString) (answers : List ReadAnswer)
      → pos ≡ length got
      → Received got len (stream answers) (read_loop len pos got answers)
  unfolding read_loop
  read_loop-Received pos got [] e =
      tested got [] (waiting got) pos e
        (λ l. (omega (arith, e), nothing_came got (len - length got)))
  read_loop-Received pos got (ReadAnswer.interrupted ∷ answers) e =
      read_loop-Received pos got answers e
  read_loop-Received pos got (ReadAnswer.would_block ∷ answers) e =
      read_loop-Received pos got answers e
  read_loop-Received pos got (ReadAnswer.failed ∷ answers) e =
      tested got [] (error got) pos e (λ l. (omega (arith, e), nothing_came got (len - length got)))
  read_loop-Received pos got (arrived [] ∷ answers) e = (e, nothing_came got (len - length got))
  read_loop-Received pos got (arrived (c ∷ bytes) ∷ answers) e =
      let more = prefix (len - pos) (c ∷ bytes) in
      tested got ((c ∷ bytes) ++ stream answers) _ pos e (λ l.
        Received-more got (stream answers) (c ∷ bytes) len _ (
          subst
            (λ (k : ℕ).
              Received (got ++ prefix (len - k) (c ∷ bytes)) len (stream answers)
                (read_loop len (pos + length more) (got ++ more) answers))
            e
            (read_loop-Received (pos + length more) (got ++ more) answers
              (omega (arith, length-append got more, e)))))

-- Whatever the calls of read answer: the buffer holds the front of what arrived before the end of the
-- file or a failure, up to the length asked for (8 MiB at most), and no more; what read_in_full returns is
-- how many bytes that is, and it fails or is still in a call only while there is room left.
pub read_in_full-Received :
    (len : ℕ) (answers : List ReadAnswer)
    → Received [] (min len max_io) (stream answers) (read_in_full len answers)
unfolding read_in_full
read_in_full-Received len answers = read_loop-Received (min len max_io) 0 [] answers refl
