-- ===== src/Config/Load.antt =====
-- load_config of kfmon.c: the walk over the configuration directory at startup.
pub mod Startup
use Prim.Native.Nat.{◌-◌}
use kfmon.Prelude.{
  ℕ, zero, suc, ◌+◌, Bool, true, false, not, ◌&&◌, Option, none, some, List, [], ◌∷◌, CString,
  codes, char_at, strcaseeq, if◌then◌else◌, ltb, leb, ◌==◌, set, length, replicate,
}
use kfmon.Config.{DaemonConfig, WatchConfig, watch_max, zero_watch, watch_at}
use kfmon.Config.Library.{Str5cpy, Inih}
use kfmon.Config.Handlers.{daemon_handler, watch_handler}
use kfmon.Config.Validate.{validate_watch_config}

-- What fts_read tells of a directory entry; `is_file` is FTS_F.
pub record DirEntry : Type 0 where
  pub is_file : Bool
  pub name : CString
  pub path : CString

unfoldable pub skip : ℕ → CString → CString
skip zero s = s
skip (suc n) [] = []
skip (suc n) (c ∷ s) = skip n s

-- A file with the suffix .ini that is not hidden.
unfoldable pub is_ini_file : DirEntry → Bool
unfolding skip
is_ini_file e =
    e.is_file
    && (ltb 4 (length e.name)
        && (strcaseeq (skip (length e.name - 4) e.name) (codes ".ini")
            && not (char_at e.name 0 == b'.')))

abbrev pub main_name : CString
main_name = codes "kfmon.ini"

abbrev pub user_name : CString
user_name = codes "kfmon.user.ini"

-- The globals that loading changes, `watch_count`, and whether `rval` is still EXIT_SUCCESS.
pub record Load : Type 0 where
  pub daemon : DaemonConfig
  pub watches : List WatchConfig
  pub watch_count : ℕ
  pub sound : Bool

module _ (inih : Inih) (str5cpy : Str5cpy) where
  open inih use {ini_parse}

  unfoldable pub load_daemon : Load → CString → Load
  load_daemon l path =
      let (c, parsed) = ini_parse DaemonConfig path daemon_handler l.daemon in
      record l { daemon = c; sound = l.sound && parsed }

  -- The slot at `watch_count` holds what was parsed; it becomes active or is cleared.
  unfoldable pub load_watch : Load → CString → Load
  load_watch l path =
      let (w, parsed) =
        ini_parse WatchConfig path (watch_handler str5cpy) (watch_at l.watches l.watch_count) in
      let ws = set l.watches l.watch_count w in
      if parsed && validate_watch_config ws w
      then record l {
        watches = set ws l.watch_count (record w { is_active = true });
        watch_count = l.watch_count + 1;
      }
      else record l { watches = set ws l.watch_count zero_watch }

  unfoldable pub load_entry : Load → DirEntry → Load
  load_entry l e =
      if is_ini_file e
      then (if strcaseeq e.name main_name
          then load_daemon l e.path
          else if strcaseeq e.name user_name
          then l
          else if leb watch_max l.watch_count
          then l
          else load_watch l e.path)
      else l

  unfoldable pub load_entries : Load → List DirEntry → Load
  load_entries l [] = l
  load_entries l (e ∷ es) = load_entries (load_entry l e) es

  -- With a user configuration file, that is read last.
  unfoldable pub load_user : Bool → CString → Load → Load
  load_user present path l = if present then load_daemon l path else l

  -- `walk` is what the walk finds, `none` if it cannot be opened or is empty; the call returns 0 if
  -- `sound` holds of the result, and else -1.
  unfoldable pub load_config : Option (List DirEntry) → Bool → CString → Load → Load
  load_config none user_present user_path l = record l { sound = false }
  load_config (some es) user_present user_path l =
      load_user user_present user_path (load_entries l es)

abbrev pub zero_daemon : DaemonConfig
zero_daemon = record {
  db_timeout = 0;
  use_syslog = false;
  with_notifications = false;
  with_storage_notifications = false;
}

-- The zero-initialised globals.
abbrev pub unloaded : Load
unloaded = record {
  daemon = zero_daemon;
  watches = replicate watch_max zero_watch;
  watch_count = 0;
  sound = true;
}
