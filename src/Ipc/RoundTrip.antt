-- ===== src/Ipc/RoundTrip.antt =====
-- The names by which a client can start a watch: its index as listed, and the basename of its file.
use Prim.Native.Nat.{min}
use mathlib.Core.Path.{subst}
use kfmon.Prelude.{
  ℕ, ◌-◌, ◌%◌, ◌^◌, ◌<◌, ◌≡◌, ◌≢◌, refl, sym, ap, ◌∙◌, Bool, true, false, Option, none, some, List,
  [], ◌∷◌, ◌++◌, CString, codes, arith, Option-cases, inl, inr, Outcome, returns, ◌>>=◌, length,
  basename, get_elem?, get_elem?-lt, get_or-eq, is_blank, All-get_or, has_prefix, has_prefix_case,
  to_lower,
}
use kfmon.Config.{WatchConfig, watch_at, zero_watch}
use kfmon.Config.Names.{IsDistinct}
use kfmon.Config.WellFormed.{IsWatch, zero_watch-IsWatch}
use kfmon.Config.Value.{starts_with_digit}
use kfmon.Config.Value.Numbers.{value, IsDigits}
use kfmon.Processed.{decimal}
use kfmon.Events.{Daemon}
use kfmon.Events.Invariant.{IsDaemon}
use kfmon.Ipc.Commands.{
  Target, by_index, by_name, launching, command_of, as_index, as_name, scan_target, find_target,
  after_literal, scan_word, scan_hhu,
}
use kfmon.Ipc.Targets.{find_target_iff}
use kfmon.Ipc.Listing.{length-basename}
use kfmon.Ipc.Scan.{
  scan_hhu-digits, scan_hhu-decimal, IsWord, ends_word, scan_word-append, scan_word-IsWord,
}
use kfmon.Ipc.{
  Answers, launch_request, find_and_launch, reply_once, status_packet, message, handle_command,
  handle_ipc, Handled,
}

abbrev pub start_text : Bool → CString
start_text true = codes "force-start:"
start_text false = codes "start:"

abbrev pub trigger_text : Bool → CString
trigger_text true = codes "force-trigger:"
trigger_text false = codes "trigger:"

start-command :
    (force : Bool) (s : CString)
    → (command_of (start_text force ++ s) ≡ launching force false)
      × (scan_target force false (start_text force ++ s) ≡ as_index (some s))
unfolding command_of scan_target after_literal has_prefix_case to_lower has_prefix
start-command true s = (refl, refl)
start-command false s = (refl, refl)

trigger-command :
    (force : Bool) (s : CString)
    → (command_of (trigger_text force ++ s) ≡ launching force true)
      × (scan_target force true (trigger_text force ++ s) ≡ as_name (some s))
unfolding command_of scan_target after_literal has_prefix_case to_lower has_prefix
trigger-command true s = (refl, refl)
trigger-command false s = (refl, refl)

-- What handle_ipc does once the watch is found.
abbrev pub requests : Answers → Daemon → CString → Bool → ℕ → Outcome Handled
requests a d buf force i =
    launch_request a force i d >>= λ r. returns (reply_once a r.0 (status_packet buf r.1))

found-requests :
    (a : Answers) (d : Daemon) (buf : CString) (force trigger : Bool) (t : Target) (i : ℕ)
    → command_of buf ≡ launching force trigger
    → scan_target force trigger buf ≡ some t
    → find_target d.watches t ≡ some i
    → handle_ipc a d (message buf) ≡ requests a d buf force i
unfolding handle_ipc handle_command
found-requests a d buf force trigger t i c s f = rw (c, s) (rw (f, find_and_launch) refl)

as_index-hhu :
    (s : CString) (id : ℕ) → scan_hhu s ≡ some id → as_index (some s) ≡ some (by_index id)
unfolding as_index
as_index-hhu s id e = rw (e, as_index) refl

as_name-word : (s name : CString) → scan_word s ≡ some name → as_name (some s) ≡ some (by_name name)
unfolding as_name
as_name-word s name e = rw (e, as_name) refl

-- The command start or force-start with the index of an active watch as a listing prints it, whatever
-- follows that index (the rest of the listed line, say) unless it begins with a digit, is the request
-- for that watch.
pub handle_ipc-start :
    (a : Answers) (d : Daemon) (force : Bool) (i : ℕ) (w : WatchConfig) (rest : CString)
    → IsDaemon d
    → get_elem? d.watches i ≡ some w
    → w.is_active ≡ true
    → starts_with_digit rest ≡ false
    → handle_ipc a d (message (start_text force ++ (decimal i ++ rest)))
      ≡ requests a d (start_text force ++ (decimal i ++ rest)) force i
handle_ipc-start a d force i w rest h e act r =
    let (c, s) = start-command force (decimal i ++ rest) in
    let lt : i < 256 = omega (arith, get_elem?-lt d.watches i e, h.watches.complete) in
    found-requests a d (start_text force ++ (decimal i ++ rest)) force false (by_index i) i c
      (s ∙ as_index-hhu (decimal i ++ rest) i (scan_hhu-decimal i rest lt r))
      ((find_target_iff d.watches (by_index i) i h.watches.distinct).1
        (record { watch = w; at_slot = e; active = act; called = refl }))

-- Any number in a start command is taken, held to 32 bits and then modulo 256: a larger one stands for
-- the watch at what is left.
pub scan_target-digits :
    (force : Bool) (c : ℕ) (s rest : CString)
    → IsDigits (c ∷ s)
    → starts_with_digit rest ≡ false
    → scan_target force false (start_text force ++ (c ∷ s ++ rest))
      ≡ some (by_index (min (value (c ∷ s)) (2 ^ 32 - 1) % 256))
scan_target-digits force c s rest h e =
    (start-command force (c ∷ s ++ rest)).1
    ∙ as_index-hhu (c ∷ s ++ rest) (min (value (c ∷ s)) (2 ^ 32 - 1) % 256)
        (scan_hhu-digits c s rest h e)

scan_word-name :
    (name rest : CString)
    → is_blank name ≡ false
    → length name < 128
    → IsWord name
    → ends_word rest ≡ true
    → scan_word (name ++ rest) ≡ some name
scan_word-name [] rest b h w e = absurd (ground arith)
scan_word-name (c ∷ s) rest b h w e = scan_word-append c s rest h w e

-- The command trigger or force-trigger with the basename of an active watch's file, if that has no
-- white space and is not empty, is the request for that watch and no other.
pub handle_ipc-trigger :
    (a : Answers) (d : Daemon) (force : Bool) (i : ℕ) (w : WatchConfig) (rest : CString)
    → IsDaemon d
    → get_elem? d.watches i ≡ some w
    → w.is_active ≡ true
    → is_blank (basename w.filename) ≡ false
    → IsWord (basename w.filename)
    → ends_word rest ≡ true
    → handle_ipc a d (message (trigger_text force ++ (basename w.filename ++ rest)))
      ≡ requests a d (trigger_text force ++ (basename w.filename ++ rest)) force i
handle_ipc-trigger a d force i w rest h e act b word r =
    let name = basename w.filename in
    let (c, s) = trigger-command force (name ++ rest) in
    let at : watch_at d.watches i ≡ w = get_or-eq d.watches i zero_watch e in
    let sized =
      (subst IsWatch at
        (All-get_or IsWatch d.watches i zero_watch zero_watch-IsWatch h.watches.watches)).0 in
    let lt : length name < 128 = omega (arith, length-basename w.filename, sized.filename_fits) in
    found-requests a d (trigger_text force ++ (name ++ rest)) force true (by_name name) i c
      (s ∙ as_name-word (name ++ rest) name (scan_word-name name rest b lt word r))
      ((find_target_iff d.watches (by_name name) i h.watches.distinct).1
        (record { watch = w; at_slot = e; active = act; called = refl }))

as_name-IsWord :
    (o : Option CString) (t : Target)
    → as_name o ≡ some t
    → (name : CString) × (t ≡ by_name name) × IsWord name
unfolding as_name
as_name-IsWord none t h = absurd (ground arith)
as_name-IsWord (some s) t h = elim (Option-cases (scan_word s)) [
  | inl e ↦ absurd (ground (arith, rw (e, as_name) at h))
  | inr (name, e) ↦ (name, ground (arith, rw (e, as_name) at h), scan_word-IsWord s name e)
]

trigger-IsWord :
    (force : Bool) (buf : CString) (t : Target)
    → scan_target force true buf ≡ some t
    → (name : CString) × (t ≡ by_name name) × IsWord name
unfolding scan_target
trigger-IsWord true buf t h = as_name-IsWord (after_literal (codes "force-trigger:") buf) t h
trigger-IsWord false buf t h = as_name-IsWord (after_literal (codes "trigger:") buf) t h

-- No trigger command, whatever its text, reaches a watch whose file has white space in its basename.
pub scan_target-white_space :
    (ws : List WatchConfig) (buf : CString) (force : Bool) (t : Target) (i : ℕ) (w : WatchConfig)
    → IsDistinct ws
    → get_elem? ws i ≡ some w
    → ¬ (IsWord (basename w.filename))
    → scan_target force true buf ≡ some t
    → find_target ws t ≢ some i
scan_target-white_space ws buf force t i w d e n s f =
    let (name, same, word) = trigger-IsWord force buf t s in
    let m = (find_target_iff ws (by_name name) i d).0 (ap (find_target ws) (sym same) ∙ f) in
    let one : m.watch ≡ w = ground (arith, m.at_slot) in
    n (subst IsWord (sym (sym (ap (λ (x : WatchConfig). basename x.filename) one) ∙ m.called)) word)
