-- ===== src/Ipc/Invariant.antt =====
-- handle_ipc keeps the daemon's state well-formed, and replies to every message.
use kfmon.Prelude.{
  ℕ, suc, ◌<◌, ◌≡◌, ◌≢◌, refl, sym, ap, Bool, true, false, Option, none, some, List, [], ◌∷◌, ◌++◌,
  CString, arith, Bool-cases, Option-cases, inl, inr, returns, >>=-eq-returns, get_elem?-lt,
}
use mathlib.Core.Path.{subst}
use kfmon.Config.{WatchConfig, watch_max}
use kfmon.Config.WellFormed.{WellFormed}
use kfmon.Process.Spawn.{spawn-IsTable}
use kfmon.Events.{Daemon}
use kfmon.Events.Invariant.{IsDaemon}
use kfmon.Ipc.Commands.{
  Command, listing, launching, version, full_version, unsupported, command_of, scan_target, Target,
  find_target,
}
use kfmon.Ipc.Targets.{find_target_iff}
use kfmon.Ipc.Requests.{launch_request-answers, launch_request_total}
use kfmon.Ipc.{
  Answers, Status, invalid_id, unanswered, launch_request, find_and_launch, Received, read_error,
  end_of_file, message, Handled, Sent, Packet, send_listing, is_listed, list_packet, status_text,
  status_packet, reply_once, handle_command, handle_ipc, invalid_text,
}

launch_request-IsDaemon :
    (a : Answers) (force : Bool) (i : ℕ) (d d' : Daemon) (s : Status)
    → i < watch_max
    → IsDaemon d
    → launch_request a force i d ≡ returns (d', s)
    → IsDaemon d' × (s ≢ unanswered)
launch_request-IsDaemon a force i d d' s lt h e = elim (launch_request-answers a force i d d' s e) [
  | inl g ↦ (
    record {
      watches = subst WellFormed (sym g.watches_kept) h.watches;
      table =
          (spawn-IsTable a.launch d.table d'.table i h.table lt g.granted.not_running g.by_spawn).0;
    },
    (λ u. ground (arith, g.answer)),
  )
  | inr r ↦ (subst IsDaemon (sym r.unchanged) h, r.answered)
]

found-lt :
    (d : Daemon) (t : Target) (i : ℕ) → IsDaemon d → find_target d.watches t ≡ some i → i < 16
found-lt d t i h e =
    let m = (find_target_iff d.watches t i h.watches.distinct).0 e in
    omega (arith, get_elem?-lt d.watches i m.at_slot, h.watches.complete)

find_and_launch-IsDaemon :
    (a : Answers) (force trigger : Bool) (d d' : Daemon) (o : Option Target) (s : Status)
    → IsDaemon d
    → find_and_launch a force trigger d o ≡ returns (d', s)
    → IsDaemon d' × (s ≢ unanswered)
unfolding find_and_launch
find_and_launch-IsDaemon a force trigger d d' none s h e =
    (subst IsDaemon (ground arith) h, (λ u. ground arith))
find_and_launch-IsDaemon a force trigger d d' (some t) s h e =
    elim (Option-cases (find_target d.watches t)) [
      | inl n ↦
          let g = rw (n, find_and_launch) at e in
          (subst IsDaemon (ground (arith, g)) h, (λ u. ground (arith, g)))
      | inr (i, f) ↦
          launch_request-IsDaemon a force i d d' s (found-lt d t i h f) h
            (rw (f, find_and_launch) at e)
    ]

-- The request behind a launching command, once the call returns.
launching-inverted :
    (a : Answers) (d : Daemon) (buf : CString) (force trigger : Bool) (x : Handled)
    → handle_command a d buf (launching force trigger) ≡ returns x
    → (d' : Daemon) × (s : Status) × (find_and_launch a force trigger d
          (scan_target force trigger buf)
        ≡ returns (d', s))
      × (x ≡ reply_once a d' (status_packet buf s))
unfolding handle_command
launching-inverted a d buf force trigger x e =
    let ((d', s), f, g) =
      >>=-eq-returns (find_and_launch a force trigger d (scan_target force trigger buf))
        (λ r. returns (reply_once a r.0 (status_packet buf r.1))) e in
    (d', s, f, ground arith)

handle_command-IsDaemon :
    (a : Answers) (d : Daemon) (buf : CString) (c : Command) (x : Handled)
    → IsDaemon d
    → handle_command a d buf c ≡ returns x
    → IsDaemon x.daemon
unfolding handle_command
handle_command-IsDaemon a d buf (launching force trigger) x h e =
    let (d', s, f, g) = launching-inverted a d buf force trigger x e in
    subst IsDaemon (sym (ap (λ (y : Handled). y.daemon) g))
      (find_and_launch-IsDaemon a force trigger d d' (scan_target force trigger buf) s h f).0
handle_command-IsDaemon a d buf (listing gui) x h e = subst IsDaemon (ground arith) h
handle_command-IsDaemon a d buf version x h e = subst IsDaemon (ground arith) h
handle_command-IsDaemon a d buf full_version x h e = subst IsDaemon (ground arith) h
handle_command-IsDaemon a d buf unsupported x h e = subst IsDaemon (ground arith) h

-- If handling a client's message returns, whatever it was and whatever the system answered, a
-- well-formed daemon is well-formed after it.
pub handle_ipc-IsDaemon :
    (a : Answers) (d : Daemon) (r : Received) (x : Handled)
    → IsDaemon d
    → handle_ipc a d r ≡ returns x
    → IsDaemon x.daemon
unfolding handle_ipc
handle_ipc-IsDaemon a d read_error x h e = subst IsDaemon (ground arith) h
handle_ipc-IsDaemon a d end_of_file x h e = subst IsDaemon (ground arith) h
handle_ipc-IsDaemon a d (message buf) x h e = handle_command-IsDaemon a d buf (command_of buf) x h e

-- The connection stays open, and the last packet that went out ends in a NUL.
pub record Replied (s : Sent) : Type 0 where
  pub open_still : s.closed ≡ false
  pub before : List Packet
  pub last : Packet
  pub ended : s.packets ≡ before ++ (last ++ 0 ∷ []) ∷ []

reply_once-Replied :
    (a : Answers) (d : Daemon) (p : Packet)
    → a.sends 0 ≡ true
    → Replied (reply_once a d (p ++ 0 ∷ [])).sent
reply_once-Replied a d p h =
    rw h (record { open_still = refl; before = []; last = p; ended = refl })

status_packet-text :
    (buf : CString) (s : Status) → s ≢ unanswered → status_packet buf s ≡ status_text s ++ 0 ∷ []
unfolding status_packet
status_packet-text buf unanswered n = absurd (n refl)
status_packet-text buf s n = refl

module _ (sends : ℕ → Bool) (all : (k : ℕ) → sends k ≡ true) (gui : Bool) where
  send_listing-Replied : (k i : ℕ) (ws : List WatchConfig) → Replied (send_listing sends gui k i ws)
  unfolding send_listing
  send_listing-Replied k i [] =
      rw (all k) (record { open_still = refl; before = []; last = []; ended = refl })
  send_listing-Replied k i (w ∷ ws) = elim (Bool-cases (is_listed gui w)) [
    | inr e ↦ rw e (send_listing-Replied k (suc i) ws)
    | inl e ↦
        let r = send_listing-Replied (suc k) (suc i) ws in
        rw (e, all k)
          (record {
            open_still = r.open_still;
            before = list_packet i w ∷ r.before;
            last = r.last;
            ended = ap (λ ps. list_packet i w ∷ ps) r.ended;
          })
  ]

handle_command-Replied :
    (a : Answers) (d : Daemon) (buf : CString) (c : Command) (x : Handled)
    → IsDaemon d
    → ((k : ℕ) → a.sends k ≡ true)
    → handle_command a d buf c ≡ returns x
    → Replied x.sent
unfolding handle_command
handle_command-Replied a d buf (launching force trigger) x h all e =
    let (d', s, f, g) = launching-inverted a d buf force trigger x e in
    let (_, n) =
      find_and_launch-IsDaemon a force trigger d d' (scan_target force trigger buf) s h f in
    subst (λ (y : Handled). Replied y.sent) (sym g)
      (rw (status_packet-text buf s n) (reply_once-Replied a d' (status_text s) (all 0)))
handle_command-Replied a d buf (listing gui) x h all e =
    let sent = send_listing a.sends gui 0 0 d.watches in
    let same : sent ≡ x.sent = ground arith in
    subst Replied same (send_listing-Replied a.sends all gui 0 0 d.watches)
handle_command-Replied a d buf version x h all e =
    let same : (reply_once a d (a.version_text ++ 0 ∷ [])).sent ≡ x.sent = ground arith in
    subst Replied same (reply_once-Replied a d a.version_text (all 0))
handle_command-Replied a d buf full_version x h all e =
    let same : (reply_once a d (a.full_version_text ++ 0 ∷ [])).sent ≡ x.sent = ground arith in
    subst Replied same (reply_once-Replied a d a.full_version_text (all 0))
handle_command-Replied a d buf unsupported x h all e =
    let same : (reply_once a d (invalid_text ++ 0 ∷ [])).sent ≡ x.sent = ground arith in
    subst Replied same (reply_once-Replied a d invalid_text (all 0))

module _ (a : Answers) (pid : ℕ)
    (ok : a.launch ≡ record { fork_pid = some pid; thread_ok = true }) where
  find_and_launch_total :
      (force trigger : Bool) (d : Daemon) (o : Option Target)
      → IsDaemon d
      → (r : Daemon × Status) × (find_and_launch a force trigger d o ≡ returns r)
  unfolding find_and_launch
  find_and_launch_total force trigger d none h = (_, refl)
  find_and_launch_total force trigger d (some t) h = elim (Option-cases (find_target d.watches t)) [
    | inl n ↦ ((d, invalid_id), rw (n, find_and_launch) refl)
    | inr (i, f) ↦
        let (r, e) = launch_request_total a force i pid d h.table (found-lt d t i h f) ok in
        (r, rw (f, find_and_launch) e)
  ]

  handle_command_total :
      (d : Daemon) (buf : CString) (c : Command)
      → IsDaemon d
      → (x : Handled) × (handle_command a d buf c ≡ returns x)
  unfolding handle_command
  handle_command_total d buf (launching force trigger) h =
      let (r, e) = find_and_launch_total force trigger d (scan_target force trigger buf) h in
      (reply_once a r.0 (status_packet buf r.1), rw e refl)
  handle_command_total d buf (listing gui) h = (_, refl)
  handle_command_total d buf version h = (_, refl)
  handle_command_total d buf full_version h = (_, refl)
  handle_command_total d buf unsupported h = (_, refl)

-- Every message that reaches a well-formed daemon is replied to, whatever it says: if fork, thread and
-- the sends succeed, handling it returns, the connection stays open, and the last packet sent ends in a
-- NUL.
pub handle_ipc-Replied :
    (a : Answers) (pid : ℕ) (d : Daemon) (buf : CString)
    → a.launch ≡ record { fork_pid = some pid; thread_ok = true }
    → IsDaemon d
    → ((k : ℕ) → a.sends k ≡ true)
    → (x : Handled) × (handle_ipc a d (message buf) ≡ returns x) × Replied x.sent
unfolding handle_ipc
handle_ipc-Replied a pid d buf ok h all =
    let (x, e) = handle_command_total a pid ok d buf (command_of buf) h in
    (x, e, handle_command-Replied a d buf (command_of buf) x h all e)
