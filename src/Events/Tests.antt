-- ===== src/Events/Tests.antt =====
-- Concrete events.
use kfmon.Events.{
  crashes_on_close, tear_down_watch, tear_down, on_q_overflow, on_ignored, handle_reads,
  match_event, handle_event, handle_batch, launch_watch, is_settled, should_spawn, Daemon, Event,
  Answers, may_spawn, on_open, on_close, Read, events, interrupted, handle_events,
}
use kfmon.Processed.{
  crashes, split_ext, replace_invalid_chars, qhash_step, qhash_from, munge, is_present,
  is_invalid_char, images_path_of, count_present, check_image_row, check_fw_5x_thumbnails, qhash,
  decimal, check_fw_4x_thumbnails, has_thumbnails, check_image, Database, is_target_processed,
}
use kfmon.Process.Table.{
  blocks, get_next_available_pt_entry, any_blocks, is_blocker_running, holds,
  is_watch_already_spawned, init_process_table, add_process_to_table,
}
use kfmon.Process.Spawn.{spawn_parent, register, spawn, init_process_table-IsTable}
use kfmon.Prelude.{
  ◌≡◌, ◌⊎◌, refl, true, false, none, some, List, [], ◌∷◌, arith, codes, set, returns, All,
}
use kfmon.Config.{watch_at}
use kfmon.Config.Tests.{one_slot, one_watch}
use kfmon.Config.Tests.Loads.{one_slot-WellFormed}
use kfmon.Prelude.{inl}
use kfmon.Process.Table.{ProcessTable}
use kfmon.Process.Spawn.{Launched}
use kfmon.Events.Liveness.{on_close-launches}
use kfmon.Events.Gate.{Allowed, on_close-Allowed, on_close-on_open}
use kfmon.Events.Teardown.{IsReset, handle_events-IsReset}
use kfmon.Events.Invariant.{IsDaemon, handle_events-IsDaemon}

-- The book is there, with all its thumbnails.
abbrev known : Database
known = record {
  open_ok = true;
  exists_ok = true;
  exists_row = some 1;
  image_ok = true;
  image_row = some (codes "a");
  title_ok = true;
  title_row = none;
  update_ok = true;
  present = λ path. true;
  fw_version = 41;
  is_tolino = false;
}

-- It is not there.
abbrev unknown : Database
unknown = record known { exists_row = none }

abbrev start : Daemon
start = record { watches = one_slot; table = init_process_table }

abbrev pub settled : Answers
settled = record {
  open_inhibited = false;
  open_database = known;
  close_inhibited = false;
  close_database = known;
  now = 1000;
  stamp = some 1000;
  launch = record { fork_pid = some 4711; thread_ok = true };
  rm_ok = true;
}

abbrev launched : Daemon
launched = record {
  watches = set one_slot 0 (record one_watch { processing_ts = 0 });
  table = add_process_to_table init_process_table 0 4711 0;
}

close_launches : on_close settled 0 start ≡ returns launched
unfolding on_close may_spawn is_watch_already_spawned holds init_process_table is_blocker_running
    any_blocks should_spawn is_target_processed check_image has_thumbnails check_fw_4x_thumbnails
    decimal qhash is_settled launch_watch spawn get_next_available_pt_entry register spawn_parent
    add_process_to_table blocks check_fw_5x_thumbnails check_image_row count_present images_path_of
    is_invalid_char is_present munge qhash_from qhash_step replace_invalid_chars split_ext
close_launches = refl

on_close-Allowed_example :
    (launched.table ≡ start.table)
    ⊎ (Allowed settled 0 start × (spawn settled.launch start.table 0 ≡ returns launched.table))
on_close-Allowed_example = on_close-Allowed settled 0 start launched close_launches

-- The icon is imported between the open and the close.
abbrev importing : Answers
importing = record settled { open_database = unknown }

abbrev flagged : Daemon
flagged = record start {
  watches = set one_slot 0 (record one_watch { pending_processing = true; processing_ts = 1000 });
}

open_allowed : may_spawn start 0 importing.open_inhibited ≡ true
unfolding may_spawn is_watch_already_spawned holds init_process_table is_blocker_running any_blocks
open_allowed = refl

open_unprocessed : is_target_processed importing.open_database (watch_at start.watches 0) ≡ false
unfolding is_target_processed
open_unprocessed = refl

close_waits : on_close importing 0 (on_open importing 0 start) ≡ returns flagged
unfolding on_close may_spawn is_watch_already_spawned holds on_open init_process_table
    is_blocker_running any_blocks should_spawn is_target_processed
close_waits = refl

on_close-on_open_example : flagged.table ≡ start.table
on_close-on_open_example =
    on_close-on_open importing 0 start flagged (omega arith) open_allowed open_unprocessed
      close_waits

-- An event of the only watch.
abbrev pub touched : Event
touched = record {
  wd = some 0;
  in_open = false;
  in_close = true;
  in_unmount = false;
  in_ignored = false;
  in_q_overflow = false;
}

abbrev one_batch : List Read
one_batch = interrupted ∷ events ((touched, settled) ∷ []) (λ i. true) ∷ []

handled : handle_events one_batch start ≡ returns (launched, false)
unfolding handle_events handle_batch handle_event crashes_on_close crashes on_close may_spawn
    is_watch_already_spawned holds init_process_table is_blocker_running any_blocks should_spawn
    match_event is_target_processed check_image has_thumbnails check_fw_4x_thumbnails decimal qhash
    handle_reads is_settled launch_watch on_ignored on_open on_q_overflow tear_down tear_down_watch
    register spawn spawn_parent add_process_to_table blocks get_next_available_pt_entry
    check_fw_5x_thumbnails check_image_row count_present images_path_of is_invalid_char is_present
    munge qhash_from qhash_step replace_invalid_chars split_ext
handled = refl

start-IsDaemon : IsDaemon start
start-IsDaemon = record { watches = one_slot-WellFormed; table = init_process_table-IsTable }

handle_events-IsDaemon_example : IsDaemon launched
handle_events-IsDaemon_example =
    handle_events-IsDaemon one_batch start launched false start-IsDaemon handled

-- The file of the only watch is removed.
abbrev removal : List Read
removal =
    events ((record touched { in_close = false; in_ignored = true }, settled) ∷ []) (λ i. true) ∷ []

removed : handle_events removal start ≡ returns (start, true)
unfolding handle_events handle_reads handle_batch handle_event match_event on_ignored tear_down
    tear_down_watch
removed = refl

handle_events-IsReset_example : All IsReset start.watches
handle_events-IsReset_example = handle_events-IsReset removal start start removed

start-Allowed : Allowed settled 0 start
unfolding is_watch_already_spawned holds init_process_table is_blocker_running any_blocks
    is_target_processed check_image has_thumbnails check_fw_4x_thumbnails decimal qhash blocks
    check_fw_5x_thumbnails check_image_row count_present images_path_of is_invalid_char is_present
    munge qhash_from qhash_step replace_invalid_chars split_ext
start-Allowed = record {
  not_running = refl;
  not_blocked = refl;
  not_inhibited = refl;
  not_pending = refl;
  processed = refl;
  settled = inl refl;
}

on_close-launches_example :
    (t : ProcessTable) × (on_close settled 0 start
      ≡ returns
          (record { watches = set one_slot 0 (record one_watch { processing_ts = 0 }); table = t }))
    × Launched init_process_table 0 4711 t
on_close-launches_example =
    on_close-launches settled 0 4711 start init_process_table-IsTable (omega arith) refl
      start-Allowed
