-- ===== src/Ipc/Tests.antt =====
-- Concrete messages and connections.
use kfmon.Prelude.{
  ◌≡◌, ◌≢◌, ◌↔◌, ◌⊎◌, ◌≤◌, ◌%◌, ◌^◌, ◌-◌, refl, true, false, some, List, [], ◌∷◌, ◌++◌, arith,
  codes, returns, inr, CString, basename, after_slash, is_blank, has_prefix_case, has_prefix,
  to_lower,
}
use Prim.Native.Nat.{min}
use kfmon.Config.{WatchConfig}
use kfmon.Config.Value.{skip_spaces, is_space, is_digit, starts_with_digit, read_digits}
use kfmon.Config.Value.Numbers.{value}
use kfmon.Ipc.Scan.{IsWord}
use kfmon.Config.Tests.{one_slot, one_watch}
use kfmon.Config.Tests.Loads.{one_slot-WellFormed}
use kfmon.Process.Table.{
  blocks, get_next_available_pt_entry, any_blocks, is_blocker_running, holds,
  is_watch_already_spawned, init_process_table, add_process_to_table,
}
use kfmon.Process.Spawn.{spawn_parent, register, spawn, init_process_table-IsTable}
use kfmon.Events.{Daemon}
use kfmon.Events.Invariant.{IsDaemon}
use kfmon.Ipc.Commands.{
  listing, by_index, by_name, command_of, is_forced, is_trigger, find_target, find_index,
  scan_target, after_literal, as_name, scan_word, nonempty, take_word, as_index, scan_hhu,
  scan_signed, scan_digits, narrow,
}
use kfmon.Ipc.{
  Answers, Handled, launched, launch_request, may_launch, handle_ipc, handle_command,
  find_and_launch, status_packet, status_text, message,
}
use kfmon.Ipc.Requests.{Granted, Refused, Permitted, launch_request-answers}
use kfmon.Ipc.Targets.{Meant, find_target_iff}
use kfmon.Ipc.Invariant.{Replied, handle_ipc-IsDaemon, handle_ipc-Replied}
use kfmon.Ipc.Listing.{deliver, listing_of, handle_ipc-listing}
use kfmon.Ipc.RoundTrip.{
  trigger_text, requests, handle_ipc-trigger, scan_target-digits, scan_target-white_space,
}
use kfmon.Ipc.Connection.{
  Poll, Served, handle_connection, serve, client, timed_out, input, max_retries, timeouts,
  handle_connection-IsClosed,
}

abbrev pub start : Daemon
start = record { watches = one_slot; table = init_process_table }

pub start-IsDaemon : IsDaemon start
start-IsDaemon = record { watches = one_slot-WellFormed; table = init_process_table-IsTable }

abbrev pub willing : Answers
willing = record {
  sends = λ k. true;
  inhibited = false;
  launch = record { fork_pid = some 4711; thread_ok = true };
  scan_error = false;
  version_text = codes "KFMon";
  full_version_text = codes "KFMon, SQLite and FBInk";
}

abbrev running : Daemon
running = record start { table = add_process_to_table init_process_table 0 4711 0 }

start_launches : launch_request willing false 0 start ≡ returns (running, launched)
unfolding launch_request may_launch is_watch_already_spawned holds init_process_table
    is_blocker_running any_blocks blocks spawn get_next_available_pt_entry register spawn_parent
    add_process_to_table
start_launches = refl

launch_request-answers_example :
    Granted willing false 0 start running launched ⊎ Refused willing false 0 start running launched
launch_request-answers_example =
    launch_request-answers willing false 0 start running launched start_launches

start-Permitted : Permitted willing false 0 start
unfolding is_watch_already_spawned holds init_process_table is_blocker_running any_blocks blocks
start-Permitted = record { not_running = refl; cleared = inr (refl, refl) }

find_target_iff_example :
    (find_target one_slot (by_name (codes "a.png")) ≡ some 0)
    ↔ Meant one_slot (by_name (codes "a.png")) 0
find_target_iff_example =
    find_target_iff one_slot (by_name (codes "a.png")) 0 one_slot-WellFormed.distinct

abbrev start_zero : CString
start_zero = codes "start:0"

abbrev told_ok : Handled
told_ok = record {
  daemon = running;
  sent = record { packets = (codes "OK" ++ (10 ∷ 0 ∷ [])) ∷ []; closed = false };
}

start_handled : handle_ipc willing start (message start_zero) ≡ returns told_ok
unfolding handle_ipc handle_command find_and_launch launch_request may_launch
    is_watch_already_spawned holds init_process_table is_blocker_running any_blocks blocks spawn
    get_next_available_pt_entry register spawn_parent add_process_to_table command_of is_forced
    is_trigger has_prefix has_prefix_case to_lower scan_target after_literal as_index scan_hhu
    scan_signed scan_digits narrow find_target find_index status_packet status_text skip_spaces
    is_space starts_with_digit read_digits
start_handled = refl

handle_ipc-IsDaemon_example : IsDaemon running
handle_ipc-IsDaemon_example =
    handle_ipc-IsDaemon willing start (message start_zero) told_ok start-IsDaemon start_handled

handle_ipc-Replied_example :
    (x : Handled) × (handle_ipc willing start (message start_zero) ≡ returns x) × Replied x.sent
handle_ipc-Replied_example =
    handle_ipc-Replied willing 4711 start start_zero refl start-IsDaemon (λ k. refl)

gui_list : command_of (codes "gui-list") ≡ listing true
unfolding command_of has_prefix has_prefix_case to_lower
gui_list = refl

handle_ipc-listing_example :
    handle_ipc willing start (message (codes "gui-list"))
    ≡ returns (record { daemon = start; sent = deliver (λ k. true) 0 (listing_of true 0 one_slot) })
handle_ipc-listing_example = handle_ipc-listing willing start (codes "gui-list") true gui_list

abbrev file : CString
file = basename one_watch.filename

file_text : file ≡ codes "a.png"
unfolding basename after_slash
file_text = refl

file_named : is_blank file ≡ false
unfolding basename after_slash
file_named = refl

handle_ipc-trigger_example :
    handle_ipc willing start (message (trigger_text false ++ (file ++ [])))
    ≡ requests willing start (trigger_text false ++ (file ++ [])) false 0
unfolding basename after_slash is_space
handle_ipc-trigger_example =
    handle_ipc-trigger willing start false 0 one_watch [] start-IsDaemon refl refl file_named
      (refl, (refl, (refl, (refl, (refl, tt))))) refl

-- 256 stands for the first watch.
scan_target-digits_example :
    scan_target false false (codes "start:256")
    ≡ some (by_index (min (value (codes "256")) (2 ^ 32 - 1) % 256))
unfolding starts_with_digit is_digit
scan_target-digits_example =
    scan_target-digits false b'2' (codes "56") [] (refl, (refl, (refl, tt))) refl

wraps : min (value (codes "256")) (2 ^ 32 - 1) % 256 ≡ 0
wraps = refl

-- A watch on a file with a blank in its name.
abbrev blank_watch : WatchConfig
blank_watch = record one_watch { filename = codes "/w/my book.png" }

blank_blank : ¬ (IsWord (basename blank_watch.filename))
unfolding basename after_slash is_space
blank_blank h = ground (arith, h.1.1.0)

blank_scanned : scan_target false true (codes "trigger:my book.png") ≡ some (by_name (codes "my"))
unfolding scan_target after_literal as_name scan_word nonempty take_word skip_spaces is_space
blank_scanned = refl

scan_target-white_space_example : find_target (blank_watch ∷ []) (by_name (codes "my")) ≢ some 0
scan_target-white_space_example =
    scan_target-white_space (blank_watch ∷ []) (codes "trigger:my book.png") false
      (by_name (codes "my")) 0 blank_watch ((λ h. tt), tt) refl blank_blank blank_scanned

abbrev served : Served
served = record { daemon = running; packets = told_ok.sent.packets; closed = true }

abbrev idle_client : List Poll
idle_client =
    timed_out ∷ timed_out ∷ timed_out ∷ input (message start_zero) willing ∷ timed_out ∷ []

idle_served : handle_connection (client true) start idle_client ≡ returns served
unfolding handle_connection serve handle_ipc handle_command find_and_launch launch_request
    may_launch is_watch_already_spawned holds init_process_table is_blocker_running any_blocks
    blocks spawn get_next_available_pt_entry register spawn_parent add_process_to_table command_of
    is_forced is_trigger has_prefix has_prefix_case to_lower scan_target after_literal as_index
    scan_hhu scan_signed scan_digits narrow find_target find_index status_packet status_text
    skip_spaces is_space starts_with_digit read_digits
idle_served = refl

four_timeouts : max_retries ≤ timeouts idle_client
unfolding timeouts
four_timeouts = omega arith

handle_connection-IsClosed_example : served.closed ≡ true
handle_connection-IsClosed_example =
    handle_connection-IsClosed true start idle_client served four_timeouts idle_served
