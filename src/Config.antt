-- ===== src/Config.antt =====
-- The configuration records of kfmon.h and their limits (DaemonConfig, WatchConfig, CFG_SZ_MAX,
-- DB_SZ_MAX, WATCH_MAX), and what the code reads from the watch array.
pub mod Value
pub mod Library
pub mod Handlers
pub mod Validate
pub mod Merge
pub mod Load
pub mod Update
pub mod Names
pub mod WellFormed
pub mod Alike
pub mod Tests
use kfmon.Prelude.{ℕ, Bool, false, not, some, List, [], Handle, CString, find_from, get_or}

-- The number of watch slots, and of process slots.
abbrev pub watch_max : ℕ
watch_max = 16

-- The size of a buffer for a path, action or label, and of one for database metadata.
abbrev pub cfg_sz_max : ℕ
cfg_sz_max = 128

abbrev pub db_sz_max : ℕ
db_sz_max = 128

pub record DaemonConfig : Type 0 where
  pub db_timeout : ℕ
  pub use_syslog : Bool
  pub with_notifications : Bool
  pub with_storage_notifications : Bool

pub record WatchConfig : Type 0 where
  pub processing_ts : ℕ
  pub inotify_wd : Handle
  pub filename : CString
  pub action : CString
  pub label : CString
  pub db_title : CString
  pub db_author : CString
  pub db_comment : CString
  pub hidden : Bool
  pub skip_db_checks : Bool
  pub do_db_update : Bool
  pub block_spawns : Bool
  pub wd_was_destroyed : Bool
  pub pending_processing : Bool
  pub is_active : Bool

-- `(const WatchConfig) { 0 }`, an unused slot.
abbrev pub zero_watch : WatchConfig
zero_watch = record {
  processing_ts = 0;
  inotify_wd = some 0;
  filename = [];
  action = [];
  label = [];
  db_title = [];
  db_author = [];
  db_comment = [];
  hidden = false;
  skip_db_checks = false;
  do_db_update = false;
  block_spawns = false;
  wd_was_destroyed = false;
  pending_processing = false;
  is_active = false;
}

-- `watchConfig[i]`
abbrev pub watch_at : List WatchConfig → ℕ → WatchConfig
watch_at ws i = get_or ws i zero_watch

-- The first unused slot; `none` is the -1 that the code returns when all are taken.
unfoldable pub get_next_available_watch_entry : List WatchConfig → Handle
get_next_available_watch_entry ws = find_from (λ w. not w.is_active) 0 ws
