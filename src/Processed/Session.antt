-- ===== src/Processed/Session.antt =====
-- is_target_processed of kfmon.c call by call: what it asks of SQLite, in which order, and where a
-- failing call (CALL_SQLITE of kfmon.h) ends it.
pub mod Protocol
pub mod Traces
pub mod Verdicts
use kfmon.Prelude.{
  ℕ, ◌*◌, Bool, true, false, not, ◌&&◌, Option, none, some, List, [], ◌∷◌, ◌++◌, CString,
  if◌then◌else◌, replicate,
}
use kfmon.Config.{WatchConfig, DaemonConfig}
use kfmon.Processed.{
  Database, book_path_of, check_image_row, is_one, is_null_title, is_stale, max_sleeps, sleep_while,
}

-- The four statements, and their parameters.
pub data Query : Type 0 where
  select_exists select_image_id select_title update_texts : Query

pub data Parameter : Type 0 where
  id title author comment : Parameter

-- The calls: whether the database is opened for writing, the busy timeout in ms, ...
pub data Call : Type 0 where
  open_db : Bool → Call
  busy_timeout : ℕ → Call
  prepare : Query → Call
  bind_text : Parameter → CString → Call
  step : Query → Call
  finalize : Query → Call
  nap : Call
  close_db : Call

-- A call of CALL_SQLITE that fails ends the function with the value that is_processed has then; a row
-- that strcmp cannot read ends the daemon.
pub data Ended {ℓ} (A : Type ℓ) : Type ℓ where
  fails : Bool → Ended A
  crashed : Ended A
  goes_on : A → Ended A

pub record Attempt {ℓ} (A : Type ℓ) : Type ℓ where
  pub calls : List Call
  pub result : Ended A

module _ {ℓ κ} {A : Type ℓ} {B : Type κ} where
  abbrev pub after : List Call → Ended A → (A → Attempt B) → Attempt B
  after calls (fails v) next = record { calls = calls; result = fails v }
  after calls crashed next = record { calls = calls; result = crashed }
  after calls (goes_on a) next = record {
    calls = calls ++ (next a).calls;
    result = (next a).result;
  }

  infixl 5 ◌>>=◌
  abbrev pub ◌>>=◌ : Attempt A → (A → Attempt B) → Attempt B
  m >>= next = after m.calls m.result next

  infixl 5 ◌>>◌
  abbrev pub ◌>>◌ : Attempt A → Attempt B → Attempt B
  m >> next = m >>= (λ a. next)

abbrev pub perform : Call → Attempt (Unit {0})
perform c = record { calls = c ∷ []; result = goes_on tt }

-- CALL_SQLITE, where `is_processed` is `v`.
abbrev pub call_sqlite : Bool → Bool → Call → Attempt (Unit {0})
call_sqlite v ok c = record { calls = c ∷ []; result = if ok then goes_on tt else fails v }

-- What reads the row that a step yielded: it returns, or crashes.
abbrev pub read_row : Bool → Attempt (Unit {0})
read_row faults = record { calls = []; result = if faults then crashed else goes_on tt }

-- Which calls succeed, and what the steps yield.
pub record Replies : Type 0 where
  pub db : Database
  pub prepared : Query → Bool
  pub bound : Query → Parameter → Bool

-- A query for the watch's book, up to its end, and what follows it; `faults` is whether its row cannot be
-- read.
unfoldable pub ask : Replies → WatchConfig → Bool → Query → Bool → Attempt Bool → Attempt Bool
ask r w v q faults next = do
  call_sqlite v (r.prepared q) (prepare q)
  call_sqlite v (r.bound q id) (bind_text id (book_path_of w))
  perform (step q)
  read_row faults
  perform (finalize q)
  next

unfoldable pub update_row : Replies → WatchConfig → Attempt Bool → Attempt Bool
update_row r w next = do
  call_sqlite true (r.prepared update_texts) (prepare update_texts)
  call_sqlite true (r.bound update_texts title) (bind_text title w.db_title)
  call_sqlite true (r.bound update_texts author) (bind_text author w.db_author)
  call_sqlite true (r.bound update_texts comment) (bind_text comment w.db_comment)
  call_sqlite true (r.bound update_texts id) (bind_text id (book_path_of w))
  perform (step update_texts)
  perform (finalize update_texts)
  next

-- The wait for the rollback journal: `journal n` is whether it is there after `n` naps.
unfoldable pub naps : Bool → (ℕ → Bool) → List Call
naps waits journal = if waits then replicate (sleep_while max_sleeps journal 0) nap else []

-- The function outside a DEBUG build, in its parts, each with what follows it. `waits` is wait_for_db.
module _ (r : Replies) (w : WatchConfig) (waits : Bool) (journal : ℕ → Bool) where
  -- From the wait on.
  unfoldable pub leave : Bool → Attempt Bool
  unfolding naps
  leave is_processed = record {
    calls = naps (is_processed && waits) journal ++ close_db ∷ [];
    result = goes_on is_processed;
  }

  -- From the UPDATE on, for what is processed.
  unfoldable pub from_update : Bool → Attempt Bool
  unfolding leave update_row
  from_update needs_update = if needs_update then update_row r w (leave true) else leave true

  -- From the query for the title on.
  unfoldable pub from_title : Bool → Attempt Bool
  unfolding leave from_update ask
  from_title is_processed =
      if is_processed && w.do_db_update
      then ask r w true select_title (is_null_title r.db.title_row)
          (from_update (is_stale w r.db.title_row))
      else leave is_processed

  -- From the query for the image on.
  unfoldable pub from_image : Bool → Attempt Bool
  unfolding leave from_title ask
  from_image is_processed =
      if is_processed
      then ask r w false select_image_id false (from_title (check_image_row r.db w r.db.image_row))
      else leave false

  unfoldable pub attempt : DaemonConfig → Attempt Bool
  unfolding from_image ask
  attempt dc = do
    call_sqlite false r.db.open_ok (open_db w.do_db_update)
    perform (busy_timeout (dc.db_timeout * (if waits then 2 else 1)))
    ask r w false select_exists false (from_image (is_one r.db.exists_row))

-- What the caller is told, if it is.
abbrev pub verdict_of : Ended Bool → Option Bool
verdict_of (fails v) = some v
verdict_of crashed = none
verdict_of (goes_on v) = some v

-- The answers of the calls put together.
abbrev pub summary : Replies → Database
summary r = record r.db {
  exists_ok = r.prepared select_exists && r.bound select_exists id;
  image_ok = r.prepared select_image_id && r.bound select_image_id id;
  title_ok = r.prepared select_title && r.bound select_title id;
  update_ok =
      r.prepared update_texts
      && (r.bound update_texts title
          && (r.bound update_texts author
              && (r.bound update_texts comment && r.bound update_texts id)));
}
