-- ===== src/Config/Handlers.antt =====
-- daemon_handler and watch_handler of kfmon.c: one key of a configuration file.
pub mod Refusal
use kfmon.Prelude.{
  Bool, true, false, ◌&&◌, Option, none, some, CString, codes, streq, if◌then◌else◌,
}
use kfmon.Config.{DaemonConfig, WatchConfig, cfg_sz_max, db_sz_max}
use kfmon.Config.Value.{strtobool, strtoul_hu}
use kfmon.Config.Library.{Str5cpy, trunc, notrunc, CopyStatus, is_error}

-- The macro MATCH(s, n).
unfoldable pub key_is : CString → CString → CString → CString → Bool
key_is section key s n = streq section s && streq key n

-- A value that was read is stored, and the handler goes on; else it returns 0 at once.
abbrev pub store {ℓ κ} : {A : Type ℓ} {C : Type κ} → C → (A → C) → Option A → C × Bool
store c put none = (c, false)
store c put (some a) = (put a, true)

abbrev pub sec_daemon : CString
sec_daemon = codes "daemon"

abbrev pub sec_watch : CString
sec_watch = codes "watch"

-- The keys that a handler knows.
pub data DaemonKey : Type 0 where
  db_timeout use_syslog with_notifications with_storage_notifications : DaemonKey

pub data WatchKey : Type 0 where
  filename action label hidden block_spawns skip_db_checks do_db_update db_title db_author :
      WatchKey
  db_comment reboot_on_exit : WatchKey

-- The conditions of the ladder of daemon_handler.
unfoldable pub daemon_key : CString → CString → Option DaemonKey
unfolding key_is
daemon_key section key =
    if key_is section key sec_daemon (codes "db_timeout")
    then some db_timeout
    else if key_is section key sec_daemon (codes "use_syslog")
    then some use_syslog
    else if key_is section key sec_daemon (codes "with_notifications")
    then some with_notifications
    else if key_is section key sec_daemon (codes "with_storage_notifications")
    then some with_storage_notifications
    else none

-- Its branches.
unfoldable pub set_daemon_key : DaemonConfig → CString → DaemonKey → DaemonConfig × Bool
set_daemon_key c value db_timeout = store c (λ n. record c { db_timeout = n }) (strtoul_hu value)
set_daemon_key c value use_syslog =
    store c (λ b. record c { use_syslog = b }) (strtobool (some value))
set_daemon_key c value with_notifications =
    store c (λ b. record c { with_notifications = b }) (strtobool (some value))
set_daemon_key c value with_storage_notifications =
    store c (λ b. record c { with_storage_notifications = b }) (strtobool (some value))

unfoldable pub daemon_handler : DaemonConfig → CString → CString → CString → DaemonConfig × Bool
daemon_handler c section key value = elim (daemon_key section key) [
  | none ↦ (c, false)
  | some k ↦ set_daemon_key c value k
]

-- The conditions of the ladder of watch_handler.
unfoldable pub watch_key : CString → CString → Option WatchKey
unfolding key_is
watch_key section key =
    if key_is section key sec_watch (codes "filename")
    then some filename
    else if key_is section key sec_watch (codes "action")
    then some action
    else if key_is section key sec_watch (codes "label")
    then some label
    else if key_is section key sec_watch (codes "hidden")
    then some hidden
    else if key_is section key sec_watch (codes "block_spawns")
    then some block_spawns
    else if key_is section key sec_watch (codes "skip_db_checks")
    then some skip_db_checks
    else if key_is section key sec_watch (codes "do_db_update")
    then some do_db_update
    else if key_is section key sec_watch (codes "db_title")
    then some db_title
    else if key_is section key sec_watch (codes "db_author")
    then some db_author
    else if key_is section key sec_watch (codes "db_comment")
    then some db_comment
    else if key_is section key sec_watch (codes "reboot_on_exit")
    then some reboot_on_exit
    else none

-- A mandatory text that must fit: on an error the handler returns 0.
unfoldable pub store_whole : (CString → WatchConfig) → CString × CopyStatus → WatchConfig × Bool
store_whole put (text, status) = (put text, if is_error status then false else true)

-- A text that may be cut: at most a warning.
unfoldable pub store_cut : (CString → WatchConfig) → CString × CopyStatus → WatchConfig × Bool
store_cut put (text, status) = (put text, true)

module _ (str5cpy : Str5cpy) where
  -- Its branches.
  unfoldable pub set_watch_key : WatchConfig → CString → WatchKey → WatchConfig × Bool
  set_watch_key w value filename =
      store_whole (λ s. record w { filename = s })
        (str5cpy w.filename cfg_sz_max value cfg_sz_max notrunc)
  set_watch_key w value action =
      store_whole (λ s. record w { action = s })
        (str5cpy w.action cfg_sz_max value cfg_sz_max notrunc)
  set_watch_key w value label =
      store_cut (λ s. record w { label = s }) (str5cpy w.label cfg_sz_max value cfg_sz_max trunc)
  set_watch_key w value hidden = store w (λ b. record w { hidden = b }) (strtobool (some value))
  set_watch_key w value block_spawns =
      store w (λ b. record w { block_spawns = b }) (strtobool (some value))
  set_watch_key w value skip_db_checks =
      store w (λ b. record w { skip_db_checks = b }) (strtobool (some value))
  set_watch_key w value do_db_update =
      store w (λ b. record w { do_db_update = b }) (strtobool (some value))
  set_watch_key w value db_title =
      store_cut (λ s. record w { db_title = s })
        (str5cpy w.db_title db_sz_max value db_sz_max trunc)
  set_watch_key w value db_author =
      store_cut (λ s. record w { db_author = s })
        (str5cpy w.db_author db_sz_max value db_sz_max trunc)
  set_watch_key w value db_comment =
      store_cut (λ s. record w { db_comment = s })
        (str5cpy w.db_comment db_sz_max value db_sz_max trunc)
  set_watch_key w value reboot_on_exit = (w, true)

  unfoldable pub watch_handler : WatchConfig → CString → CString → CString → WatchConfig × Bool
  watch_handler w section key value = elim (watch_key section key) [
    | none ↦ (w, false)
    | some k ↦ set_watch_key w value k
  ]
