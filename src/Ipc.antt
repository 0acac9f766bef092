-- ===== src/Ipc.antt =====
-- handle_ipc of kfmon.c: one message of a client, its effect on the daemon and the replies to it.
pub mod Commands
pub mod Requests
pub mod Targets
pub mod Invariant
pub mod Listing
pub mod Scan
pub mod RoundTrip
pub mod Connection
pub mod Tests
use kfmon.Prelude.{
  ℕ, suc, Bool, true, false, not, ◌&&◌, ◌||◌, Option, none, some, List, [], ◌∷◌, ◌++◌, CString,
  codes, char_at, is_blank, basename, if◌then◌else◌, Outcome, returns, exits, ◌>>=◌,
}
use kfmon.Config.{WatchConfig, watch_at}
use kfmon.Process.Table.{is_watch_already_spawned, is_blocker_running}
use kfmon.Process.Spawn.{Launch, spawn}
use kfmon.Processed.{decimal}
use kfmon.Events.{Daemon}
use Commands.{
  Command, listing, launching, version, full_version, unsupported, command_of, scan_target, Target,
  find_target,
}

-- What the system answers while one message is handled: whether the send of each packet succeeds,
-- whether the BLOCK file is there, how a spawn goes, whether a failed sscanf set errno; and the texts
-- of the two versions, which the build fixes.
pub record Answers : Type 0 where
  pub sends : ℕ → Bool
  pub inhibited : Bool
  pub launch : Launch
  pub scan_error : Bool
  pub version_text : CString
  pub full_version_text : CString

-- What xread gives: an error, the end of the stream, or the text in `buf`.
pub data Received : Type 0 where
  read_error : Received
  end_of_file : Received
  message : CString → Received

-- A packet on the socket, with the NULs that are sent.
abbrev pub Packet : Type 0
Packet = List ℕ

abbrev pub line_feed : CString
line_feed = 10 ∷ []

-- The line of a watch in a listing: its index, its basename, and its label if it has one.
unfoldable pub list_packet : ℕ → WatchConfig → Packet
list_packet i w =
    decimal i
    ++ (b':'
        ∷ (basename w.filename
            ++ (if is_blank w.label then line_feed else b':' ∷ (w.label ++ line_feed))))

-- A gui listing leaves hidden watches out.
unfoldable pub is_listed : Bool → WatchConfig → Bool
is_listed gui w = w.is_active && not (gui && w.hidden)

-- What went out, and whether the connection is to be closed.
pub record Sent : Type 0 where
  pub packets : List Packet
  pub closed : Bool

-- A send that fails ends the call.
abbrev pub send_then : Bool → Packet → Sent → Sent
send_then true p rest = record { packets = p ∷ rest.packets; closed = rest.closed }
send_then false p rest = record { packets = []; closed = true }

abbrev pub nothing_sent : Bool → Sent
nothing_sent closed = record { packets = []; closed = closed }

-- The loop of the listing from watch `i` on, with `k` packets sent, and the final NUL.
unfoldable pub send_listing : (ℕ → Bool) → Bool → ℕ → ℕ → List WatchConfig → Sent
send_listing sends gui k i [] = send_then (sends k) (0 ∷ []) (nothing_sent false)
send_listing sends gui k i (w ∷ ws) =
    let shown = send_then (sends k) (list_packet i w) (send_listing sends gui (suc k) (suc i) ws) in
    let hidden = send_listing sends gui k (suc i) ws in if is_listed gui w then shown else hidden

-- The status of a command that starts a watch; `unanswered` is a `packet_len` of 0.
pub data Status : Type 0 where
  launched already_running spawn_blocked spawn_inhibited invalid_id unanswered : Status
  malformed really_malformed : Bool → Bool → Status

unfoldable pub expected_format : Bool → Bool → CString
expected_format force trigger =
    codes "Expected format is "
    ++ ((if force then codes "force-" else [])
        ++ (if trigger then codes "trigger:name" else codes "start:id"))

-- What snprintf leaves in `buf`.
unfoldable pub status_text : Status → CString
unfolding expected_format
status_text launched = codes "OK" ++ line_feed
status_text already_running = codes "WARN_ALREADY_RUNNING" ++ line_feed
status_text spawn_blocked = codes "WARN_SPAWN_BLOCKED" ++ line_feed
status_text spawn_inhibited = codes "WARN_SPAWN_INHIBITED" ++ line_feed
status_text invalid_id = codes "ERR_INVALID_ID" ++ line_feed
status_text unanswered = []
status_text (malformed force trigger) =
    codes "ERR_MALFORMED_CMD" ++ (line_feed ++ (expected_format force trigger ++ line_feed))
status_text (really_malformed force trigger) =
    codes "ERR_REALLY_MALFORMED_CMD" ++ (line_feed ++ (expected_format force trigger ++ line_feed))

-- `packet_len + 1` bytes of `buf`: the first of the command, if nothing was written over it.
unfoldable pub status_packet : CString → Status → Packet
unfolding status_text
status_packet buf unanswered = char_at buf 0 ∷ []
status_packet buf s = status_text s ++ 0 ∷ []

-- `(force && !spawned) || (!force && !spawned && !blocker && !inhibited)`
unfoldable pub may_launch : Bool → Bool → Bool → Bool → Bool
may_launch force spawned blocked inhibited =
    (force && not spawned) || (not force && (not spawned && (not blocked && not inhibited)))

-- The ladder of refusals.
unfoldable pub refusal : Bool → Bool → Bool → Bool → Status
refusal force spawned blocked inhibited =
    if spawned
    then already_running
    else if not force && blocked
    then spawn_blocked
    else if not force && inhibited
    then spawn_inhibited
    else unanswered

-- A watch that was found. The force flag is dropped for a watch that is itself a spawn blocker.
unfoldable pub launch_request : Answers → Bool → ℕ → Daemon → Outcome (Daemon × Status)
launch_request a force i d =
    let spawned = is_watch_already_spawned d.table i in
    let blocked = is_blocker_running d.table d.watches in
    let forced = force && not (watch_at d.watches i).block_spawns in
    if may_launch forced spawned blocked a.inhibited
    then (spawn a.launch d.table i >>= λ table. returns (record d { table = table }, launched))
    else returns (d, refusal forced spawned blocked a.inhibited)

-- Whether sscanf assigned; then whether an active watch is meant.
unfoldable pub find_and_launch :
    Answers → Bool → Bool → Daemon → Option Target → Outcome (Daemon × Status)
find_and_launch a force trigger d none =
    returns (d, if a.scan_error then really_malformed force trigger else malformed force trigger)
find_and_launch a force trigger d (some t) = elim (find_target d.watches t) [
  | none ↦ returns (d, invalid_id)
  | some i ↦ launch_request a force i d
]

-- The daemon after a message, what went out, and whether handle_ipc returned true.
pub record Handled : Type 0 where
  pub daemon : Daemon
  pub sent : Sent

abbrev pub reply_once : Answers → Daemon → Packet → Handled
reply_once a d p = record { daemon = d; sent = send_then (a.sends 0) p (nothing_sent false) }

abbrev pub invalid_text : CString
invalid_text =
    codes "ERR_INVALID_CMD"
    ++ (line_feed
        ++ (codes "Comma separated list of valid commands: version, full-version, list, gui-list, "
            ++ (codes "start, force-start, trigger, force-trigger" ++ line_feed)))

unfoldable pub handle_command : Answers → Daemon → CString → Command → Outcome Handled
unfolding find_and_launch launch_request
handle_command a d buf (listing gui) =
    returns (record { daemon = d; sent = send_listing a.sends gui 0 0 d.watches })
handle_command a d buf (launching force trigger) =
    find_and_launch a force trigger d (scan_target force trigger buf) >>= λ r.
    returns (reply_once a r.0 (status_packet buf r.1))
handle_command a d buf version = returns (reply_once a d (a.version_text ++ 0 ∷ []))
handle_command a d buf full_version = returns (reply_once a d (a.full_version_text ++ 0 ∷ []))
handle_command a d buf unsupported = returns (reply_once a d (invalid_text ++ 0 ∷ []))

unfoldable pub handle_ipc : Answers → Daemon → Received → Outcome Handled
unfolding handle_command
handle_ipc a d read_error = returns (record { daemon = d; sent = nothing_sent true })
handle_ipc a d end_of_file = returns (record { daemon = d; sent = nothing_sent true })
handle_ipc a d (message buf) = handle_command a d buf (command_of buf)
