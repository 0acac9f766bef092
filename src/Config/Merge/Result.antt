-- ===== src/Config/Merge/Result.antt =====
-- What validate_and_merge_watch_config makes of a watch on the same file.
use kfmon.Prelude.{
  ℕ, ◌≡◌, refl, sym, ap, ◌∙◌, true, false, List, is_blank, arith, if◌then◌else◌, Bool-cases, inl,
  inr,
}
use kfmon.Config.{WatchConfig, watch_at}
use kfmon.Config.Library.{Str5cpy, Str5Laws}
use kfmon.Config.Handlers.Refusal.{IsSized}
use kfmon.Config.Validate.{has_db_texts}
use kfmon.Config.WellFormed.{HasTexts, has_db_texts_iff}
use kfmon.Config.Merge.Steps.{
  filename-Sane, action-Sane, label-Sets, hidden-Sets, block_spawns-Sets, skip_db_checks-Sets,
  do_db_update-Sets, db_title-Sane, db_author-Sane, db_comment-Sane,
}
use kfmon.Config.Merge.{
  Merge, merge_filename, merge_action, merge_label, merge_hidden, merge_block_spawns,
  merge_skip_db_checks, merge_do_db_update, merge_db_title, merge_db_author, merge_db_texts,
  merge_all,
}

-- The watch `w` with everything that was parsed into `p`; the database texts only if an update of the
-- database is asked for.
abbrev pub merged : WatchConfig → WatchConfig → WatchConfig
merged p w = record w {
  action = p.action;
  label = p.label;
  hidden = p.hidden;
  block_spawns = p.block_spawns;
  skip_db_checks = p.skip_db_checks;
  do_db_update = p.do_db_update;
  db_title = if p.do_db_update then p.db_title else w.db_title;
  db_author = if p.do_db_update then p.db_author else w.db_author;
  db_comment = if p.do_db_update then p.db_comment else w.db_comment;
}

module _ (str5cpy : Str5cpy) (laws : Str5Laws str5cpy) (p : WatchConfig) (sized : IsSized p) where
  -- The slot with the texts of the database.
  abbrev with_texts : WatchConfig → WatchConfig
  with_texts w = record w {
    db_title = if p.do_db_update then p.db_title else w.db_title;
    db_author = if p.do_db_update then p.db_author else w.db_author;
    db_comment = if p.do_db_update then p.db_comment else w.db_comment;
  }

  db_texts-Sane :
      (m : Merge)
      → (merge_db_texts str5cpy p m).sane ≡ true
      → (has_db_texts p ≡ true)
        × (m.sane ≡ true)
        × ((merge_db_texts str5cpy p m).slot ≡ with_texts m.slot)
  unfolding merge_db_texts has_db_texts
  db_texts-Sane m h = elim (Bool-cases p.do_db_update) [
    | inr off ↦ rw off (refl, ground arith, refl)
    | inl on ↦
        let m1 = merge_db_title str5cpy p m in
        let m2 = merge_db_author str5cpy p m1 in
        let (t3, s3, e3) = db_comment-Sane str5cpy laws p sized m2 (ground arith) in
        let (t2, s2, e2) = db_author-Sane str5cpy laws p sized m1 s3 in
        let (t1, s1, e1) = db_title-Sane str5cpy laws p sized m s2 in
        (
          rw (on, t1, t2, t3) refl,
          s1,
          simp on (
              e3
              ∙ ap (λ (w : WatchConfig). record w { db_comment = p.db_comment })
                  (e2 ∙ ap (λ (w : WatchConfig). record w { db_author = p.db_author }) e1)),
        )
  ]

  -- For a watch on the file that was parsed, a merge that is sane means that the parsed file and action
  -- are given, and the three texts of the database if it asks for a database update. The slot is then the
  -- old one with each key that was parsed, except that the three texts are only taken if an update is
  -- asked for: otherwise the old ones stay.
  pub merge_all-merged :
      (ws : List WatchConfig) (i : ℕ)
      → p.filename ≡ (watch_at ws i).filename
      → (merge_all str5cpy p ws i).sane ≡ true
      → (is_blank p.filename ≡ false)
        × (is_blank p.action ≡ false)
        × HasTexts p
        × ((merge_all str5cpy p ws i).slot ≡ merged p (watch_at ws i))
  unfolding merge_all
  merge_all-merged ws i e h =
      let m0 : Merge = record { slot = watch_at ws i; sane = true; updated = false } in
      let m1 = merge_filename str5cpy p ws i m0 in
      let m2 = merge_action str5cpy p m1 in
      let m3 = merge_label str5cpy p m2 in
      let m4 = merge_hidden str5cpy p m3 in
      let m5 = merge_block_spawns str5cpy p m4 in
      let m6 = merge_skip_db_checks str5cpy p m5 in
      let m7 = merge_do_db_update str5cpy p m6 in
      let (texts, s7, e8) = db_texts-Sane m7 h in
      let d7 = do_db_update-Sets str5cpy laws p sized m6 in
      let d6 = skip_db_checks-Sets str5cpy laws p sized m5 in
      let d5 = block_spawns-Sets str5cpy laws p sized m4 in
      let d4 = hidden-Sets str5cpy laws p sized m3 in
      let d3 = label-Sets str5cpy laws p sized m2 in
      let s2 = sym d3.1 ∙ (sym d4.1 ∙ (sym d5.1 ∙ (sym d6.1 ∙ (sym d7.1 ∙ s7)))) in
      let (act, s1, e2) = action-Sane str5cpy laws p sized m1 s2 in
      let (file, e1) = filename-Sane str5cpy laws p sized ws i m0 e s1 in
      (
        file,
        act,
        (has_db_texts_iff p).0 texts,
        e8
            ∙ ap with_texts (
                d7.0
                ∙ ap (λ (w : WatchConfig). record w { do_db_update = p.do_db_update })
                    (d6.0
                      ∙ ap (λ (w : WatchConfig). record w { skip_db_checks = p.skip_db_checks })
                          (d5.0
                            ∙ ap (λ (w : WatchConfig). record w { block_spawns = p.block_spawns })
                                (d4.0
                                  ∙ ap (λ (w : WatchConfig). record w { hidden = p.hidden })
                                      (d3.0
                                        ∙ ap (λ (w : WatchConfig). record w { label = p.label })
                                            (e2
                                              ∙ ap
                                                  (λ (w : WatchConfig). record w {
                                                    action = p.action;
                                                  })
                                                  e1)))))),
      )
