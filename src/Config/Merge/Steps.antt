-- ===== src/Config/Merge/Steps.antt =====
-- What each step of validate_and_merge_watch_config leaves of the slot.
use kfmon.Prelude.{
  ℕ, ◌<◌, ◌≡◌, refl, sym, ap, ◌∙◌, Bool, true, false, List, CString, streq, streq_iff, is_blank,
  arith, if◌then◌else◌, Bool-cases, inl, inr, length,
}
use kfmon.Config.{WatchConfig, cfg_sz_max, db_sz_max}
use kfmon.Config.Library.{Str5cpy, Str5Laws, Mode, trunc, notrunc}
use kfmon.Config.Handlers.Refusal.{IsSized}
use kfmon.Config.Merge.{
  Merge, insane, replaced, same_flag, merge_filename, merge_action, merge_label, merge_hidden,
  merge_block_spawns, merge_skip_db_checks, merge_do_db_update, merge_db_title, merge_db_author,
  merge_db_comment,
}

-- One merge step: the slot becomes `w`, the first flag stays.
abbrev pub Sets : Merge → Merge → WatchConfig → Type 0
Sets m r w = (r.slot ≡ w) × (r.sane ≡ m.sane)

same_flag-eq : (a b : Bool) → same_flag a b ≡ true → a ≡ b
same_flag-eq a b h = ground arith

flag-Sets :
    (m : Merge) (put : Bool → WatchConfig) (new old : Bool)
    → put old ≡ m.slot
    → Sets m (if same_flag new old then m else replaced m (put new)) (put new)
flag-Sets m put new old e = elim (Bool-cases (same_flag new old)) [
  | inl same ↦ rw same (sym e ∙ ap put (sym (same_flag-eq new old same)), refl)
  | inr other ↦ rw other (refl, refl)
]

module _ (str5cpy : Str5cpy) (laws : Str5Laws str5cpy) where
  text-Sets :
      (m : Merge) (put : CString → WatchConfig) (new old : CString) (size : ℕ) (mode : Mode)
      → put old ≡ m.slot
      → length new < size
      → Sets m
          (if streq new old then m else replaced m (put (str5cpy old size new size mode).0))
          (put new)
  text-Sets m put new old size mode e lt = elim (Bool-cases (streq new old)) [
    | inl same ↦ rw same (sym e ∙ ap put (sym ((streq_iff new old).0 same)), refl)
    | inr other ↦ rw (other, laws.fits old new size mode lt) (refl, refl)
  ]

  -- The same with a check first that the text is there.
  needed-Sets :
      (m : Merge) (put : CString → WatchConfig) (new old : CString) (size : ℕ) (mode : Mode)
      → put old ≡ m.slot
      → length new < size
      → (r : Merge)
      → r ≡ (
          if is_blank new
          then insane m
          else if streq new old
          then m
          else replaced m (put (str5cpy old size new size mode).0))
      → r.sane ≡ true
      → (is_blank new ≡ false) × (m.sane ≡ true) × (r.slot ≡ put new)
  needed-Sets m put new old size mode e lt r d h = elim (Bool-cases (is_blank new)) [
    | inl blank ↦ absurd (ground arith)
    | inr there ↦
        let (p, q) = text-Sets m put new old size mode e lt in
        let c = d ∙ bring new m put old size mode there in
        (there, sym q ∙ ap (λ (x : Merge). x.sane) (sym c) ∙ h, ap (λ (x : Merge). x.slot) c ∙ p)
  ]
    where
      bring :
          (new : CString) (m : Merge) (put : CString → WatchConfig) (old : CString) (size : ℕ)
          (mode : Mode)
          → is_blank new ≡ false
          → (if is_blank new
              then insane m
              else if streq new old
              then m
              else replaced m (put (str5cpy old size new size mode).0))
            ≡ (if streq new old then m else replaced m (put (str5cpy old size new size mode).0))
      bring new m put old size mode t = rw t

-- What each step leaves of the slot when the watch is still sane after it.
module _ (str5cpy : Str5cpy) (laws : Str5Laws str5cpy) (p : WatchConfig) (sized : IsSized p) where
  pub filename-Sane :
      (ws : List WatchConfig) (i : ℕ) (m : Merge)
      → p.filename ≡ m.slot.filename
      → (merge_filename str5cpy p ws i m).sane ≡ true
      → (is_blank p.filename ≡ false) × ((merge_filename str5cpy p ws i m).slot ≡ m.slot)
  unfolding merge_filename
  filename-Sane ws i m e h = elim (Bool-cases (is_blank p.filename)) [
    | inl blank ↦ absurd (ground arith)
    | inr there ↦ (there, rw (there, (streq_iff p.filename m.slot.filename).1 e) refl)
  ]

  pub action-Sane :
      (m : Merge)
      → (merge_action str5cpy p m).sane ≡ true
      → (is_blank p.action ≡ false)
        × (m.sane ≡ true)
        × ((merge_action str5cpy p m).slot ≡ record (m.slot) { action = p.action })
  unfolding merge_action
  action-Sane m h =
      let w = m.slot in
      needed-Sets str5cpy laws m (λ s. record w { action = s }) p.action w.action cfg_sz_max notrunc
        refl sized.action_fits (merge_action str5cpy p m) refl h

  pub label-Sets :
      (m : Merge) → Sets m (merge_label str5cpy p m) (record (m.slot) { label = p.label })
  unfolding merge_label
  label-Sets m =
      let w = m.slot in
      text-Sets str5cpy laws m (λ s. record w { label = s }) p.label w.label cfg_sz_max trunc refl
        sized.label_fits

  pub hidden-Sets :
      (m : Merge) → Sets m (merge_hidden str5cpy p m) (record (m.slot) { hidden = p.hidden })
  unfolding merge_hidden
  hidden-Sets m =
      let w = m.slot in flag-Sets m (λ b. record w { hidden = b }) p.hidden w.hidden refl

  pub block_spawns-Sets :
      (m : Merge)
      → Sets m (merge_block_spawns str5cpy p m) (record (m.slot) { block_spawns = p.block_spawns })
  unfolding merge_block_spawns
  block_spawns-Sets m =
      let w = m.slot in
      flag-Sets m (λ b. record w { block_spawns = b }) p.block_spawns w.block_spawns refl

  pub skip_db_checks-Sets :
      (m : Merge)
      → Sets m
          (merge_skip_db_checks str5cpy p m)
          (record (m.slot) { skip_db_checks = p.skip_db_checks })
  unfolding merge_skip_db_checks
  skip_db_checks-Sets m =
      let w = m.slot in
      flag-Sets m (λ b. record w { skip_db_checks = b }) p.skip_db_checks w.skip_db_checks refl

  pub do_db_update-Sets :
      (m : Merge)
      → Sets m (merge_do_db_update str5cpy p m) (record (m.slot) { do_db_update = p.do_db_update })
  unfolding merge_do_db_update
  do_db_update-Sets m =
      let w = m.slot in
      flag-Sets m (λ b. record w { do_db_update = b }) p.do_db_update w.do_db_update refl

  pub db_title-Sane :
      (m : Merge)
      → (merge_db_title str5cpy p m).sane ≡ true
      → (is_blank p.db_title ≡ false)
        × (m.sane ≡ true)
        × ((merge_db_title str5cpy p m).slot ≡ record (m.slot) { db_title = p.db_title })
  unfolding merge_db_title
  db_title-Sane m h =
      let w = m.slot in
      needed-Sets str5cpy laws m (λ s. record w { db_title = s }) p.db_title w.db_title db_sz_max
        trunc refl sized.title_fits (merge_db_title str5cpy p m) refl h

  pub db_author-Sane :
      (m : Merge)
      → (merge_db_author str5cpy p m).sane ≡ true
      → (is_blank p.db_author ≡ false)
        × (m.sane ≡ true)
        × ((merge_db_author str5cpy p m).slot ≡ record (m.slot) { db_author = p.db_author })
  unfolding merge_db_author
  db_author-Sane m h =
      let w = m.slot in
      needed-Sets str5cpy laws m (λ s. record w { db_author = s }) p.db_author w.db_author db_sz_max
        trunc refl sized.author_fits (merge_db_author str5cpy p m) refl h

  pub db_comment-Sane :
      (m : Merge)
      → (merge_db_comment str5cpy p m).sane ≡ true
      → (is_blank p.db_comment ≡ false)
        × (m.sane ≡ true)
        × ((merge_db_comment str5cpy p m).slot ≡ record (m.slot) { db_comment = p.db_comment })
  unfolding merge_db_comment
  db_comment-Sane m h =
      let w = m.slot in
      needed-Sets str5cpy laws m (λ s. record w { db_comment = s }) p.db_comment w.db_comment
        db_sz_max trunc refl sized.comment_fits (merge_db_comment str5cpy p m) refl h
