-- ===== src/Config/Validate.antt =====
-- validate_watch_config of kfmon.c.
use kfmon.Prelude.{
  ℕ, ◌+◌, Bool, true, false, not, ◌&&◌, List, [], ◌∷◌, CString, streq, basename, is_blank,
  if◌then◌else◌, leb,
}
use kfmon.Config.{WatchConfig}

-- How many active watches pass a test: the counters `matches` and `bmatches`. They count at most
-- WATCH_MAX watches, so their eight bits are enough.
unfoldable pub count : (WatchConfig → Bool) → List WatchConfig → ℕ
count test [] = 0
count test (w ∷ ws) = (if w.is_active && test w then 1 else 0) + count test ws

abbrev pub has_filename : CString → WatchConfig → Bool
has_filename name w = streq name w.filename

abbrev pub has_basename : CString → WatchConfig → Bool
has_basename name w = streq (basename name) (basename w.filename)

-- No active watch has this file, or one of the same basename.
unfoldable pub is_name_free : List WatchConfig → CString → Bool
unfolding count
is_name_free ws name =
    not (leb 1 (count (has_filename name) ws)) && not (leb 1 (count (has_basename name) ws))

-- With a database update asked for, the three texts for it are there.
unfoldable pub has_db_texts : WatchConfig → Bool
has_db_texts w =
    if w.do_db_update
    then not (is_blank w.db_title) && (not (is_blank w.db_author) && not (is_blank w.db_comment))
    else true

unfoldable pub validate_watch_config : List WatchConfig → WatchConfig → Bool
validate_watch_config ws w =
    (if is_blank w.filename then false else is_name_free ws w.filename)
    && (not (is_blank w.action) && has_db_texts w)
