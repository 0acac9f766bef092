-- ===== src/Config/Tests/Loads.antt =====
-- A concrete load and concrete merges.
use kfmon.Config.Merge.{
  merge_filename, merge_action, merge_label, merge_hidden, merge_block_spawns, merge_skip_db_checks,
  merge_do_db_update, merge_db_texts, merge_all,
}
use kfmon.Config.Validate.{is_name_free, validate_watch_config, has_db_texts}
use kfmon.Config.Handlers.{store_whole, set_watch_key, watch_key, watch_handler}
use kfmon.Prelude.{
  streq, to_lower, strcaseeq, ◌≡◌, refl, true, false, some, [], ◌∷◌, arith, codes, is_blank,
}
use kfmon.Config.Load.{
  load_watch, is_ini_file, load_entry, load_entries, load_user, load_config, unloaded,
}
use kfmon.Config.{WatchConfig, watch_at}
use mathlib.Core.Path.{subst}
use kfmon.Config.WellFormed.{HasTexts, WellFormed}
use kfmon.Config.Handlers.Refusal.{IsSized}
use kfmon.Config.Load.Startup.{Loaded, load_config-Loaded}
use kfmon.Config.Merge.Result.{merged, merge_all-merged}
use kfmon.Config.Tests.{copy, copy-laws, own_path, one_file, one_watch, one_slot}

-- The same file is found twice.
load_config-Loaded_example :
    Loaded (load_config own_path copy (some (one_file ∷ one_file ∷ [])) false [] unloaded)
load_config-Loaded_example =
    load_config-Loaded own_path copy copy-laws (some (one_file ∷ one_file ∷ [])) false []

load_test :
    (load_config own_path copy (some (one_file ∷ one_file ∷ [])) false [] unloaded).watches
    ≡ one_slot
unfolding load_config load_user load_entries load_entry is_ini_file strcaseeq to_lower load_watch
    watch_handler watch_key streq set_watch_key store_whole validate_watch_config is_name_free
    has_db_texts
load_test = refl

pub one_slot-WellFormed : WellFormed one_slot
one_slot-WellFormed =
    subst WellFormed load_test
      (load_config-Loaded own_path copy copy-laws (some (one_file ∷ one_file ∷ [])) false []).formed

abbrev relabelled : WatchConfig
relabelled = record one_watch { label = codes "Plato"; is_active = false }

relabelled-IsSized : IsSized relabelled
relabelled-IsSized = omega arith

relabelled-sane : (merge_all copy relabelled one_slot 0).sane ≡ true
unfolding merge_all merge_db_texts merge_do_db_update merge_skip_db_checks merge_block_spawns
    merge_hidden merge_label streq merge_action merge_filename
relabelled-sane = refl

merge_all-merged_example :
    (is_blank relabelled.filename ≡ false)
    × (is_blank relabelled.action ≡ false)
    × HasTexts relabelled
    × ((merge_all copy relabelled one_slot 0).slot ≡ merged relabelled (watch_at one_slot 0))
merge_all-merged_example =
    merge_all-merged copy copy-laws relabelled relabelled-IsSized one_slot 0 refl relabelled-sane

unchanged : (merge_all copy one_watch one_slot 0).updated ≡ false
unfolding merge_all merge_db_texts merge_do_db_update merge_skip_db_checks merge_block_spawns
    merge_hidden merge_label streq merge_action merge_filename
unchanged = refl
