-- ===== src/Processed/Tests.antt =====
-- Concrete answers of the database.
use kfmon.Prelude.{
  streq, false, [], ◌∷◌, ◌++◌, ◌≡◌, ◌↔◌, refl, true, none, some, codes, Bool, ℕ, ltb,
}
use kfmon.Config.Tests.{one_watch}
use kfmon.Processed.{
  sends_update, answer_of, Database, is_target_processed, munge, replace_invalid_chars, split_ext,
  is_invalid_char, wait_for_journal, gets_to_wait, sleep_while, has_thumbnails,
  check_fw_5x_thumbnails, is_present, check_image, check_image_row,
}
use kfmon.Config.{WatchConfig, DaemonConfig}
use kfmon.Processed.Session.{
  crashed, Replies, attempt, summary, ask, from_image, from_title, from_update, update_row, leave,
  naps, id, select_exists, select_image_id,
}
use kfmon.Processed.Session.Protocol.{IsSound, unopened, binding, updates, follows, same_query}
use kfmon.Processed.Session.Verdicts.{attempt-IsSound}
use kfmon.Processed.Munge.{underscored, munge-last_dot}
use kfmon.Processed.Verdict.{IsProcessed, is_target_processed_iff}

-- A Tolino with firmware 5.0.
abbrev tolino : Database
tolino = record {
  open_ok = true;
  exists_ok = true;
  exists_row = some 1;
  image_ok = true;
  image_row = some (codes "a");
  title_ok = true;
  title_row = none;
  update_ok = true;
  present = λ path. true;
  fw_version = 50;
  is_tolino = true;
}

is_target_processed_iff_example :
    (is_target_processed tolino one_watch ≡ true) ↔ IsProcessed tolino one_watch
is_target_processed_iff_example = is_target_processed_iff tolino one_watch

munge-last_dot_example :
    (munge b'.' (codes "/w/a.b" ++ b'.' ∷ codes "png")
      ≡ underscored (codes "/w/a.b") ++ b'.' ∷ codes "png")
    × (munge b'.' (codes "png") ≡ underscored (codes "png"))
munge-last_dot_example =
    munge-last_dot b'.' (codes "/w/a.b") (codes "png") (refl, (refl, (refl, tt)))

-- A dot in front of a slash: what follows is not replaced.
kept_slash : munge b'_' (codes "/.w/a") ≡ codes "__w/a"
unfolding munge split_ext replace_invalid_chars is_invalid_char
kept_slash = refl

-- The journal goes away after three sleeps.
abbrev journal : ℕ → Bool
journal n = ltb n 3

waits : gets_to_wait tolino one_watch ≡ true
unfolding gets_to_wait is_target_processed check_image check_image_row has_thumbnails
    check_fw_5x_thumbnails is_present munge split_ext replace_invalid_chars is_invalid_char
waits = refl

three_sleeps : wait_for_journal tolino one_watch true journal ≡ 3
unfolding wait_for_journal gets_to_wait is_target_processed check_image check_image_row
    has_thumbnails check_fw_5x_thumbnails is_present munge split_ext replace_invalid_chars
    is_invalid_char sleep_while
three_sleeps = refl

-- A watch that asks for an update, and a database where the title is another one.
abbrev updating : WatchConfig
updating = record one_watch { do_db_update = true }

abbrev answers : Replies
answers = record {
  db = record tolino { title_row = some (some (codes "old")) };
  prepared = λ q. true;
  bound = λ q p. true;
}

abbrev defaults : DaemonConfig
defaults = record {
  db_timeout = 500;
  use_syslog = false;
  with_notifications = true;
  with_storage_notifications = true;
}

attempt-IsSound_example :
    IsSound updating unopened
      (attempt answers updating true journal defaults)
      (answer_of (summary answers) updating)
      (sends_update (summary answers) updating)
attempt-IsSound_example = attempt-IsSound answers defaults updating true journal

-- The UPDATE is run.
updated : updates (attempt answers updating true journal defaults).calls ≡ true
unfolding attempt ask from_image from_title from_update update_row leave naps sleep_while streq
    check_image_row has_thumbnails check_fw_5x_thumbnails is_present munge split_ext
    replace_invalid_chars is_invalid_char
updated = refl

-- The statement for the image id cannot be prepared: the connection stays open.
leak :
    follows updating unopened
      (attempt
        (record answers { prepared = λ q. same_query q select_exists })
        updating
        true
        journal
        defaults).calls
    ≡ some (binding true select_image_id (id ∷ []))
unfolding attempt ask from_image streq
leak = refl

-- A row with a NULL title.
null_title :
    (attempt
      (record answers { db = record tolino { title_row = some none } })
      updating
      true
      journal
      defaults).result
    ≡ crashed
unfolding attempt ask from_image from_title streq check_image_row has_thumbnails
    check_fw_5x_thumbnails is_present munge split_ext replace_invalid_chars is_invalid_char
null_title = refl
