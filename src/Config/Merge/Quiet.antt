-- ===== src/Config/Merge/Quiet.antt =====
-- When validate_and_merge_watch_config reports no update.
use kfmon.Prelude.{ℕ, ◌≡◌, ◌∙◌, true, false, List, arith}
use kfmon.Config.{WatchConfig, watch_at}
use kfmon.Config.Library.{Str5cpy}
use kfmon.Config.Merge.{
  Merge, merge_filename, merge_action, merge_label, merge_hidden, merge_block_spawns,
  merge_skip_db_checks, merge_do_db_update, merge_db_title, merge_db_author, merge_db_comment,
  merge_db_texts, merge_all,
}

-- A step that does not raise the second flag leaves the slot alone.
abbrev IsQuiet : Merge → Merge → Type 0
IsQuiet m r = r.updated ≡ false → (r.slot ≡ m.slot) × (m.updated ≡ false)

module _ (str5cpy : Str5cpy) (p : WatchConfig) where
  action-IsQuiet : (m : Merge) → IsQuiet m (merge_action str5cpy p m)
  unfolding merge_action
  action-IsQuiet m h = ground arith

  label-IsQuiet : (m : Merge) → IsQuiet m (merge_label str5cpy p m)
  unfolding merge_label
  label-IsQuiet m h = ground arith

  hidden-IsQuiet : (m : Merge) → IsQuiet m (merge_hidden str5cpy p m)
  unfolding merge_hidden
  hidden-IsQuiet m h = ground arith

  block_spawns-IsQuiet : (m : Merge) → IsQuiet m (merge_block_spawns str5cpy p m)
  unfolding merge_block_spawns
  block_spawns-IsQuiet m h = ground arith

  skip_db_checks-IsQuiet : (m : Merge) → IsQuiet m (merge_skip_db_checks str5cpy p m)
  unfolding merge_skip_db_checks
  skip_db_checks-IsQuiet m h = ground arith

  do_db_update-IsQuiet : (m : Merge) → IsQuiet m (merge_do_db_update str5cpy p m)
  unfolding merge_do_db_update
  do_db_update-IsQuiet m h = ground arith

  db_title-IsQuiet : (m : Merge) → IsQuiet m (merge_db_title str5cpy p m)
  unfolding merge_db_title
  db_title-IsQuiet m h = ground arith

  db_author-IsQuiet : (m : Merge) → IsQuiet m (merge_db_author str5cpy p m)
  unfolding merge_db_author
  db_author-IsQuiet m h = ground arith

  db_comment-IsQuiet : (m : Merge) → IsQuiet m (merge_db_comment str5cpy p m)
  unfolding merge_db_comment
  db_comment-IsQuiet m h = ground arith

  filename-IsQuiet :
      (ws : List WatchConfig) (i : ℕ) (m : Merge) → IsQuiet m (merge_filename str5cpy p ws i m)
  unfolding merge_filename
  filename-IsQuiet ws i m h = ground arith

  db_texts-IsQuiet : (m : Merge) → IsQuiet m (merge_db_texts str5cpy p m)
  unfolding merge_db_texts
  db_texts-IsQuiet m h =
      let m1 = merge_db_title str5cpy p m in
      ground (
        arith,
        db_title-IsQuiet m,
        db_author-IsQuiet m1,
        db_comment-IsQuiet (merge_db_author str5cpy p m1),
      )

  -- A merge that does not report an update leaves the slot exactly as it was.
  pub merge_all-quiet :
      (ws : List WatchConfig) (i : ℕ)
      → (merge_all str5cpy p ws i).updated ≡ false
      → (merge_all str5cpy p ws i).slot ≡ watch_at ws i
  unfolding merge_all
  merge_all-quiet ws i h =
      let m0 : Merge = record { slot = watch_at ws i; sane = true; updated = false } in
      let m1 = merge_filename str5cpy p ws i m0 in
      let m2 = merge_action str5cpy p m1 in
      let m3 = merge_label str5cpy p m2 in
      let m4 = merge_hidden str5cpy p m3 in
      let m5 = merge_block_spawns str5cpy p m4 in
      let m6 = merge_skip_db_checks str5cpy p m5 in
      let m7 = merge_do_db_update str5cpy p m6 in
      let q8 = db_texts-IsQuiet m7 h in
      let q7 = do_db_update-IsQuiet m6 q8.1 in
      let q6 = skip_db_checks-IsQuiet m5 q7.1 in
      let q5 = block_spawns-IsQuiet m4 q6.1 in
      let q4 = hidden-IsQuiet m3 q5.1 in
      let q3 = label-IsQuiet m2 q4.1 in
      let q2 = action-IsQuiet m1 q3.1 in
      let q1 = filename-IsQuiet ws i m0 q2.1 in
      q8.0 ∙ (q7.0 ∙ (q6.0 ∙ (q5.0 ∙ (q4.0 ∙ (q3.0 ∙ (q2.0 ∙ q1.0))))))
