-- ===== src/Config/Tests/Values.antt =====
-- Concrete values, keys and checks.
use kfmon.Config.Validate.{is_name_free, validate_watch_config}
use kfmon.Config.Handlers.{
  set_daemon_key, daemon_key, set_watch_key, watch_key, daemon_handler, watch_handler,
}
use kfmon.Prelude.{streq, to_lower, strcaseeq, ◌≡◌, ◌↔◌, refl, true, false, some, codes}
use kfmon.Config.Value.{strtobool, strtoul_hu}
use kfmon.Config.Load.{zero_daemon}
use kfmon.Config.Names.{IsFresh}
use kfmon.Config.WellFormed.{IsSane, validate_watch_config_iff}
use kfmon.Config.Tests.{copy, one_watch, one_slot}

yes_test : strtobool (some (codes "yEs")) ≡ some true
unfolding strtobool strcaseeq to_lower
yes_test = refl

bad_flag : (watch_handler copy one_watch (codes "watch") (codes "hidden") (codes "maybe")).1 ≡ false
unfolding watch_handler watch_key streq set_watch_key strtobool
bad_flag = refl

bad_timeout :
    (daemon_handler zero_daemon (codes "daemon") (codes "db_timeout") (codes "-1")).1 ≡ false
unfolding daemon_handler daemon_key streq set_daemon_key strtoul_hu
bad_timeout = refl

-- The same file again.
validate_watch_config_iff_example :
    (validate_watch_config one_slot one_watch ≡ true)
    ↔ (IsSane one_watch × IsFresh one_watch.filename one_slot)
validate_watch_config_iff_example = validate_watch_config_iff one_slot one_watch

second_watch_test : validate_watch_config one_slot one_watch ≡ false
unfolding validate_watch_config is_name_free streq
second_watch_test = refl
