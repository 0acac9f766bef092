-- ===== src/Config/Tests/Updates.antt =====
-- Concrete updates of the watches.
use kfmon.Prelude.{
  All, basename, after_slash, streq, to_lower, strcaseeq, ◌≡◌, ◌⊎◌, ◌≤◌, refl, true, some, List, [],
  ◌∷◌, arith, replicate, All-replicate,
}
use kfmon.Config.Validate.{validate_watch_config, is_name_free, has_db_texts, count}
use kfmon.Config.Update.{
  purge_from, purge, keep, is_kept, has_stale, place_watch, add_watch, update_parsed, update_file,
  update_entry, update_entries, find_watch, is_watch_file, Visit, Update, updated, overrun,
  update_watch_configs,
}
use kfmon.Config.Update.Displaced.{update_watch_configs-displaced}
use kfmon.Config.Validate.{has_basename}
use kfmon.Prelude.{none, false, codes, set}
use kfmon.Config.Tests.{one_watch}
use kfmon.Config.{WatchConfig, zero_watch, get_next_available_watch_entry}
use kfmon.Process.Table.{init_process_table, add_process_to_table, holds, is_watch_already_spawned}
use kfmon.Config.Handlers.{store_whole, set_watch_key, watch_key, watch_handler}
use kfmon.Config.Load.{is_ini_file}
use kfmon.Config.WellFormed.{WellFormed, replicate-WellFormed}
use kfmon.Config.Update.Confirmed.{IsConfirmed}
use kfmon.Config.Update.Invariant.{update_watch_configs-WellFormed}
use kfmon.Config.Update.Overrun.{
  Repeats, count_files, update_watch_configs_total, update_watch_configs-overrun,
}
use kfmon.Config.Tests.{copy, copy-laws, own_path, one_slot, no_watches, one_visit}

-- A new file.
abbrev one_added : Update
one_added = record { watches = one_slot; kept = 0 ∷ []; notify = true }

adds : update_watch_configs copy own_path (some (one_visit ∷ [])) no_watches ≡ updated one_added
unfolding update_watch_configs update_entries update_entry is_watch_file is_ini_file strcaseeq
    to_lower update_file watch_handler watch_key streq set_watch_key store_whole update_parsed
    find_watch add_watch get_next_available_watch_entry place_watch has_stale is_kept keep purge
    purge_from count has_db_texts is_name_free validate_watch_config after_slash basename
adds = refl

update_watch_configs-WellFormed_example :
    WellFormed one_added.watches
    × All
        (λ w. (w.is_active ≡ false) ⊎ IsConfirmed copy own_path (some (one_visit ∷ [])) w.filename)
        one_added.watches
update_watch_configs-WellFormed_example =
    update_watch_configs-WellFormed copy copy-laws own_path (some (one_visit ∷ [])) no_watches
      one_added replicate-WellFormed adds

one_counted : count_files (one_visit ∷ []) ≤ 16
unfolding count_files is_watch_file is_ini_file strcaseeq to_lower
one_counted = omega arith

update_watch_configs_total_example :
    (u : Update) × (update_watch_configs copy own_path (some (one_visit ∷ [])) one_slot ≡ updated u)
update_watch_configs_total_example =
    update_watch_configs_total copy own_path (one_visit ∷ []) one_slot one_counted

-- Seventeen files that name the file of a watch that runs.
abbrev seventeen : List Visit
seventeen = replicate 17 one_visit

one_visit-Repeats : Repeats copy own_path one_slot 0 one_visit
unfolding is_watch_already_spawned is_watch_file is_ini_file strcaseeq to_lower watch_handler
    watch_key streq set_watch_key store_whole find_watch holds add_process_to_table
    init_process_table
one_visit-Repeats = record { is_watch = refl; parsed = refl; found = refl; running = refl }

update_watch_configs-overrun_example :
    update_watch_configs copy own_path (some seventeen) one_slot ≡ overrun
update_watch_configs-overrun_example =
    update_watch_configs-overrun copy own_path seventeen one_slot 0
      (All-replicate (Repeats copy own_path one_slot 0) 17 one_visit one_visit-Repeats)
      (omega arith)

-- The watch was on a file of another directory before.
abbrev elsewhere : WatchConfig
elsewhere = record one_watch { filename = codes "/x/a.png" }

abbrev parsed_watch : WatchConfig
parsed_watch = record one_watch { is_active = false }

displaced_parsed :
    (is_watch_file one_visit.entry ≡ true)
    × (own_path.ini_parse WatchConfig one_visit.entry.path (watch_handler copy) zero_watch
        ≡ (parsed_watch, true))
    × (find_watch parsed_watch.filename (set no_watches 0 elsewhere) ≡ none)
    × (has_basename parsed_watch.filename elsewhere ≡ true)
unfolding is_watch_file is_ini_file strcaseeq to_lower watch_handler watch_key streq set_watch_key
    store_whole find_watch after_slash basename
displaced_parsed = (refl, refl, refl, refl)

update_watch_configs-displaced_example :
    (u : Update) × (update_watch_configs copy own_path
        (some (one_visit ∷ []))
        (set no_watches 0 elsewhere)
      ≡ updated u)
    × All (λ x. x.is_active ≡ false) u.watches
update_watch_configs-displaced_example =
    update_watch_configs-displaced copy own_path one_visit (set no_watches 0 elsewhere) parsed_watch
      elsewhere 0 displaced_parsed.0 displaced_parsed.1 displaced_parsed.2 (refl, refl)
      displaced_parsed.3
