-- ===== src/Client/Packets.antt =====
-- What the daemon reads of a line that the client sends.
use Prim.Native.Nat.{◌-◌}
use kfmon.Prelude.{
  ℕ, zero, suc, ◌<◌, ◌≤◌, ◌≡◌, ◌≢◌, ◌⊎◌, refl, ap, ◌∙◌, true, false, some, List, [], ◌∷◌, ◌++◌,
  CString, IsCString, arith, Bool-cases, inl, inr, length, length-append, if◌then◌else◌, ltb, ◌==◌,
  get_or,
}
use kfmon.Config.Library.{take}
use kfmon.Client.{
  pipe_buf, Input, sent, first_bytes, packet_of, send_input, handle_stdin, handle_pending,
}

-- The text in a zero-initialised buffer after these bytes were read into it.
abbrev pub c_string : List ℕ → CString
c_string [] = []
c_string (c ∷ text) = let rest = c_string text in if c == 0 then [] else c ∷ rest

-- handle_ipc reads into its buffer, which has room for one byte less.
abbrev pub received : List ℕ → CString
received packet = c_string (take (pipe_buf - 1) packet)

first_bytes-append : (s rest : List ℕ) → first_bytes (length s) (s ++ rest) ≡ s
unfolding first_bytes
first_bytes-append [] [] = refl
first_bytes-append [] (c ∷ rest) = refl
first_bytes-append (c ∷ s) rest = ap (λ x. c ∷ x) (first_bytes-append s rest)

get_or-last : (s : List ℕ) (c : ℕ) → get_or (s ++ c ∷ []) (length s) 0 ≡ c
get_or-last [] c = refl
get_or-last (x ∷ s) c = get_or-last s c

take-text : (n : ℕ) (s : CString) → IsCString s → length s ≤ n → c_string (take n (s ++ 0 ∷ [])) ≡ s
take-text zero [] h k = refl
take-text (suc n) [] h k = refl
take-text zero (c ∷ s) h k = absurd (omega arith)
take-text (suc n) (c ∷ s) h k = elim (Bool-cases (c == 0)) [
  | inl e ↦ absurd (h.0 (ground arith))
  | inr e ↦ rw e (ap (λ x. c ∷ x) (take-text n s h.1 (omega arith)))
]

first_bytes-all : (s : List ℕ) → first_bytes (length s) s ≡ s
unfolding first_bytes
first_bytes-all [] = refl
first_bytes-all (c ∷ s) = ap (λ x. c ∷ x) (first_bytes-all s)

packet_of-line : (text : CString) → packet_of (suc (length text)) (text ++ 10 ∷ []) ≡ text ++ 0 ∷ []
unfolding packet_of
packet_of-line text =
    let m : suc (length text) - 1 ≡ length text = omega arith in
    rw (m, get_or-last text 10) (ap (λ x. x ++ 0 ∷ []) (first_bytes-append text (10 ∷ [])))

packet_of-rest :
    (text : CString)
    → get_or text (length text - 1) 0 ≢ 10
    → length text < pipe_buf
    → packet_of (length text) text ≡ text ++ 0 ∷ []
unfolding packet_of
packet_of-rest text n h = elim (Bool-cases (get_or text (length text - 1) 0 == 10)) [
  | inl e ↦ absurd (n (ground arith))
  | inr e ↦ elim (Bool-cases (ltb (length text) pipe_buf)) [
    | inl f ↦ rw (e, f) (ap (λ x. x ++ 0 ∷ []) (first_bytes-all text))
    | inr f ↦ absurd (ground arith)
  ]
]

handle_stdin-sends :
    (i : Input) (typed : List ℕ)
    → i.pending ≡ some (length typed)
    → i.delivered ≡ some typed
    → i.send_ok ≡ true
    → 0 < length typed
    → length typed ≤ pipe_buf
    → handle_stdin i ≡ sent (packet_of (length typed) typed)
unfolding handle_stdin handle_pending send_input
handle_stdin-sends i [] p d o z h = absurd (omega arith)
handle_stdin-sends i (c ∷ text) p d o z h =
    let some_bytes : (suc (length text) == 0) ≡ false = ground arith in
    let fits : ltb pipe_buf (suc (length text)) ≡ false = ground arith in
    rw (p, handle_pending) (rw (d, o, send_input) (rw (some_bytes, fits) refl))

-- What is typed for a command: a line, or the last piece of stdin without a line feed.
abbrev pub Typed : CString → List ℕ → Type 0
Typed text typed =
    (typed ≡ text ++ 10 ∷ [])
    ⊎ ((typed ≡ text) × ((0 < length text) × (get_or text (length text - 1) 0 ≢ 10)))

-- A command of less than 4096 bytes without NULs, typed with or without a line feed at its end and read
-- in one piece, is sent by the client as a packet that the daemon's read gives back as that command.
pub handle_stdin-received :
    (i : Input) (text : CString) (typed : List ℕ)
    → IsCString text
    → length text < pipe_buf
    → Typed text typed
    → i.pending ≡ some (length typed)
    → i.delivered ≡ some typed
    → i.send_ok ≡ true
    → (packet : List ℕ) × (handle_stdin i ≡ sent packet) × (received packet ≡ text)
handle_stdin-received i text typed c h (inl e) p d o =
    let l : length typed ≡ suc (length text) =
      omega (arith, ap length e, length-append text (10 ∷ [])) in
    (
      text ++ 0 ∷ [],
      handle_stdin-sends i typed p d o (omega (arith, l)) (omega (arith, l))
          ∙ ap sent (
              ap (λ n. packet_of n typed) l
              ∙ ap (packet_of (suc (length text))) e
              ∙ packet_of-line text),
      take-text 4095 text c (omega arith),
    )
handle_stdin-received i text typed c h (inr (e, (z, n))) p d o =
    let l : length typed ≡ length text = ap length e in
    (
      text ++ 0 ∷ [],
      handle_stdin-sends i typed p d o (omega (arith, l)) (omega (arith, l))
          ∙ ap sent (
              ap (λ m. packet_of m typed) l
              ∙ ap (packet_of (length text)) e
              ∙ packet_of-rest text n h),
      take-text 4095 text c (omega arith),
    )
