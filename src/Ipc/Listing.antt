-- ===== src/Ipc/Listing.antt =====
-- The listing of the watches against its description, and the size of its lines.
use kfmon.Prelude.{
  ℕ, suc, ◌<◌, ◌≤◌, ◌≡◌, refl, ap, Bool, true, false, List, [], ◌∷◌, ◌++◌, map, CString, arith,
  Bool-cases, inl, inr, returns, length, length-append, basename, after_slash, is_blank,
  if◌then◌else◌, if_all, ◌==◌,
}
use kfmon.Config.{WatchConfig}
use kfmon.Config.Handlers.Refusal.{IsSized}
use kfmon.Processed.{decimal}
use kfmon.Events.{Daemon}
use kfmon.Ipc.Commands.{listing, command_of}
use kfmon.Ipc.{
  Answers, Packet, Sent, send_then, nothing_sent, is_listed, list_packet, line_feed, send_listing,
  message, handle_ipc,
}

-- The watches with their indices.
abbrev pub numbered : ℕ → List WatchConfig → List (ℕ × WatchConfig)
numbered i [] = []
numbered i (w ∷ ws) = (i, w) ∷ numbered (suc i) ws

abbrev pub select : (WatchConfig → Bool) → List (ℕ × WatchConfig) → List (ℕ × WatchConfig)
select test [] = []
select test (p ∷ ps) = if test p.1 then p ∷ select test ps else select test ps

-- What a listing shows: the active watches, and of these only those that are not hidden in the listing
-- for a GUI.
abbrev pub shows : Bool → WatchConfig → Bool
shows true w = if w.hidden then false else w.is_active
shows false w = w.is_active

-- Fields with colons between them, and a line feed.
abbrev pub colon_line : CString → List CString → CString
colon_line f [] = f ++ 10 ∷ []
colon_line f (g ∷ gs) = f ++ b':' ∷ colon_line g gs

abbrev pub line_of : ℕ → WatchConfig → Packet
line_of i w =
    colon_line (decimal i) (basename w.filename ∷ (if is_blank w.label then [] else w.label ∷ []))

-- The packets of a listing: a line for each watch that is shown, in their order, and a NUL.
abbrev pub listing_of : Bool → ℕ → List WatchConfig → List Packet
listing_of gui i ws =
    map (λ p. line_of p.0 p.1) (select (shows gui) (numbered i ws)) ++ (0 ∷ []) ∷ []

-- Packets sent in turn, up to the first that fails.
abbrev pub deliver : (ℕ → Bool) → ℕ → List Packet → Sent
deliver sends k [] = nothing_sent false
deliver sends k (p ∷ ps) = send_then (sends k) p (deliver sends (suc k) ps)

is_listed-shows : (gui : Bool) (w : WatchConfig) → is_listed gui w ≡ shows gui w
unfolding is_listed
is_listed-shows true w = ground arith
is_listed-shows false w = ground arith

list_packet-line_of : (i : ℕ) (w : WatchConfig) → list_packet i w ≡ line_of i w
unfolding list_packet
list_packet-line_of i w = elim (Bool-cases (is_blank w.label)) [
  | inl e ↦ rw e refl
  | inr e ↦ rw e refl
]

send_listing-deliver :
    (sends : ℕ → Bool) (gui : Bool) (k i : ℕ) (ws : List WatchConfig)
    → send_listing sends gui k i ws ≡ deliver sends k (listing_of gui i ws)
unfolding send_listing
send_listing-deliver sends gui k i [] = refl
send_listing-deliver sends gui k i (w ∷ ws) = elim (Bool-cases (shows gui w)) [
  | inl e ↦
      rw (is_listed-shows gui w, e, list_packet-line_of i w)
        (ap (send_then (sends k) (line_of i w)) (send_listing-deliver sends gui (suc k) (suc i) ws))
  | inr e ↦ rw (is_listed-shows gui w, e) (send_listing-deliver sends gui k (suc i) ws)
]

-- A list or gui-list command leaves the daemon as it is and sends one line for each active watch (for
-- gui-list, each that is not hidden), in the order of their slots, then a NUL; a line is the slot, the
-- basename and, if it is not blank, the label, with colons between them, and a line feed; after a send that fails
-- nothing more is sent and the connection is closed.
pub handle_ipc-listing :
    (a : Answers) (d : Daemon) (buf : CString) (gui : Bool)
    → command_of buf ≡ listing gui
    → handle_ipc a d (message buf)
      ≡ returns (record { daemon = d; sent = deliver a.sends 0 (listing_of gui 0 d.watches) })
unfolding handle_ipc
handle_ipc-listing a d buf gui e = rw (e, send_listing-deliver a.sends gui 0 0 d.watches) refl

length-after_slash :
    (n : ℕ) (best s : CString) → length best ≤ n → length s ≤ n → length (after_slash best s) ≤ n
unfolding after_slash
length-after_slash n best [] h k = h
length-after_slash n best (c ∷ s) h k =
    length-after_slash n (if c == b'/' then s else best) s
      (if_all (λ t. length t ≤ n) (c == b'/') {x = s} {y = best} (omega arith) h) (omega arith)

pub length-basename : (s : CString) → length (basename s) ≤ length s
unfolding basename
length-basename s = length-after_slash (length s) s s (omega arith) (omega arith)

length-decimal : (i : ℕ) → length (decimal i) ≤ 3
unfolding decimal
length-decimal i = ground arith

-- The size of the buffer that a line is written to.
abbrev pub pipe_buf : ℕ
pipe_buf = 4096

label_part :
    (w : WatchConfig)
    → IsSized w
    → length (if is_blank w.label then line_feed else b':' ∷ (w.label ++ line_feed)) ≤ 129
label_part w h =
    if_all (λ t. length t ≤ 129) (is_blank w.label) (omega arith)
      (omega (arith, length-append w.label line_feed, h.label_fits))

-- The line of a watch whose texts fit their buffers, in any slot, has at most 260 bytes, and so is
-- never cut by the buffer that it is written to.
pub length-list_packet :
    (i : ℕ) (w : WatchConfig)
    → IsSized w
    → (length (list_packet i w) ≤ 260) × (length (list_packet i w) < pipe_buf)
unfolding list_packet
length-list_packet i w h =
    let rest = if is_blank w.label then line_feed else b':' ∷ (w.label ++ line_feed) in
    let e = length-append (decimal i) (b':' ∷ (basename w.filename ++ rest)) in
    let f = length-append (basename w.filename) rest in
    omega
      (arith, e, f, label_part w h, length-decimal i, length-basename w.filename, h.filename_fits)
