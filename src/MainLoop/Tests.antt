-- ===== src/MainLoop/Tests.antt =====
-- A run of the daemon: it starts with one watch, loses its file, and sets it up again for IPC only.
use kfmon.Prelude.{
  List, ◌≡◌, ◌≤◌, refl, true, false, none, some, [], ◌∷◌, arith, strcaseeq, to_lower, streq,
  basename, after_slash, set, get_elem?, ℕ,
}
use kfmon.Config.{WatchConfig}
use kfmon.Config.Load.{is_ini_file}
use kfmon.Config.Update.{Visit, is_watch_file}
use kfmon.Config.Update.Overrun.{count_files}
use kfmon.Config.Tests.{copy, copy-laws, own_path, one_file, one_slot, one_watch}
use kfmon.Process.Table.{init_process_table, is_watch_already_spawned, holds}
use kfmon.Events.{Event, events}
use kfmon.Mount.{MountPoll, changed, wait_for_target_mountpoint, wait_for_target, target_mountpoint}
use kfmon.Events.Tests.{settled, touched}
use kfmon.MainLoop.{
  boot, after_first_mount, Added, watching, missing, Adding, setup_watches, setup_from, setup_watch,
  Turn, ready, Session, run, listening,
}
use kfmon.MainLoop.{
  main_loop, startup, session, reload, after_mount, after_update, serve_watches, listen,
  handle_ready, handle_input, handle_client, release,
}
use kfmon.Mount.{is_target_mounted, any_target}
use kfmon.Config.Load.{load_config, load_user, load_entries, load_entry, load_watch}
use kfmon.Config.Handlers.{watch_handler, watch_key, set_watch_key, store_whole}
use kfmon.Config.Validate.{validate_watch_config, is_name_free, has_db_texts, count}
use kfmon.Config.Update.{
  update_watch_configs, update_entries, update_entry, update_file, update_parsed, find_watch,
  update_watch, merge_watch, keep, purge, purge_from, is_kept, has_stale,
}
use kfmon.Config.Merge.{
  validate_and_merge_watch_config, merge_all, merge_filename, merge_action, merge_label,
  merge_hidden, merge_block_spawns, merge_skip_db_checks, merge_do_db_update, merge_db_title,
  merge_db_author, merge_db_comment, merge_db_texts, count_others, is_name_free_beside,
}
use kfmon.Events.{
  handle_events, handle_reads, handle_batch, handle_event, match_event, on_ignored, tear_down,
  tear_down_watch,
}
use kfmon.MainLoop.Invariant.{IsRunning, run-IsRunning}

abbrev idle_visit : Visit
idle_visit = record { entry = one_file; table = init_process_table }

abbrev answering : Added → ℕ → Adding
answering a i = record { added = a; table = init_process_table }

-- The file is removed.
abbrev removed : Event
removed = record touched { in_close = false; in_ignored = true }

abbrev removal : Turn
removal = record {
  freed = [];
  poll = ready (some (events ((removed, settled) ∷ []) (λ i. true) ∷ [])) none;
}

abbrev first_session : Session
first_session = record {
  mounts = some (some target_mountpoint ∷ []);
  mount_polls = [];
  walk = some (idle_visit ∷ []);
  freed = [];
  inotify_ok = true;
  adding = answering (watching 0);
  turns = removal ∷ [];
}

-- The mountpoint shows up while the daemon starts.
abbrev first_changes : List MountPoll
first_changes = changed (some (some target_mountpoint ∷ [])) ∷ []

abbrev second_session : Session
second_session = record first_session { adding = answering missing; turns = [] }

one_counted : count_files (idle_visit ∷ []) ≤ 16
unfolding count_files is_watch_file is_ini_file strcaseeq to_lower
one_counted = omega arith

run-IsRunning_example : IsRunning (
    run copy own_path none first_changes
      (some (one_file ∷ []))
      false
      []
      true
      (first_session ∷ second_session ∷ []))
run-IsRunning_example =
    run-IsRunning copy copy-laws own_path none first_changes (some (one_file ∷ [])) false [] true
      (first_session ∷ second_session ∷ []) (one_counted, (one_counted, tt))

two_sessions :
    run copy own_path none first_changes
      (some (one_file ∷ []))
      false
      []
      true
      (first_session ∷ second_session ∷ [])
    ≡ listening (record {
      watches = set one_slot 0 (record one_watch { inotify_wd = none });
      table = init_process_table;
    })
unfolding run boot after_first_mount wait_for_target_mountpoint wait_for_target main_loop startup
    session reload after_mount after_update serve_watches listen handle_ready handle_input
    handle_client release is_target_mounted any_target load_config load_user load_entries load_entry
    load_watch watch_handler watch_key set_watch_key store_whole validate_watch_config is_name_free
    has_db_texts count update_watch_configs update_entries update_entry update_file update_parsed
    find_watch update_watch merge_watch keep purge purge_from is_kept has_stale
    validate_and_merge_watch_config merge_all merge_filename merge_action merge_label merge_hidden
    merge_block_spawns merge_skip_db_checks merge_do_db_update merge_db_title merge_db_author
    merge_db_comment merge_db_texts count_others is_name_free_beside handle_events handle_reads
    handle_batch handle_event match_event on_ignored tear_down tear_down_watch setup_watches
    setup_from setup_watch strcaseeq to_lower streq is_ini_file is_watch_file
    is_watch_already_spawned holds init_process_table basename after_slash
two_sessions = refl

abbrev set_up : WatchConfig
set_up = record one_watch { inotify_wd = some 7 }

first_slot : get_elem? (setup_watches (answering (watching 7)) one_slot) 0 ≡ some set_up
unfolding setup_watches setup_from setup_watch
first_slot = refl
