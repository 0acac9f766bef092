-- ===== src/Config/Merge.antt =====
-- validate_and_merge_watch_config of kfmon.c, one definition for each key that it merges.
pub mod Steps
pub mod Result
pub mod Quiet
use kfmon.Prelude.{
  ℕ, suc, ◌+◌, Bool, true, false, not, ◌&&◌, List, [], ◌∷◌, CString, streq, is_blank, if◌then◌else◌,
  leb, set, ◌==◌,
}
use kfmon.Config.{WatchConfig, cfg_sz_max, db_sz_max, watch_at}
use kfmon.Config.Library.{Str5cpy, trunc, notrunc}
use kfmon.Config.Validate.{has_filename, has_basename}

-- The watch at `target_idx` as merged so far, and the two local flags.
pub record Merge : Type 0 where
  pub slot : WatchConfig
  pub sane : Bool
  pub updated : Bool

-- `count` over the active watches but the one at `target_idx`, from index `i` on.
unfoldable pub count_others : (WatchConfig → Bool) → ℕ → ℕ → List WatchConfig → ℕ
count_others test target_idx i [] = 0
count_others test target_idx i (w ∷ ws) =
    (if w.is_active && (not (i == target_idx) && test w) then 1 else 0)
    + count_others test target_idx (suc i) ws

unfoldable pub is_name_free_beside : List WatchConfig → ℕ → CString → Bool
unfolding count_others
is_name_free_beside ws target_idx name =
    not (leb 1 (count_others (has_filename name) target_idx 0 ws))
    && not (leb 1 (count_others (has_basename name) target_idx 0 ws))

abbrev pub insane : Merge → Merge
insane m = record m { sane = false }

-- A field of the slot was replaced.
abbrev pub replaced : Merge → WatchConfig → Merge
replaced m w = record m { slot = w; updated = true }

abbrev pub same_flag : Bool → Bool → Bool
same_flag true b = b
same_flag false b = not b

module _ (str5cpy : Str5cpy) (p : WatchConfig) where
  unfoldable pub merge_filename : List WatchConfig → ℕ → Merge → Merge
  merge_filename ws target_idx m =
      if is_blank p.filename
      then insane m
      else if streq p.filename m.slot.filename
      then m
      else if is_name_free_beside ws target_idx p.filename
      then replaced m
          (record w { filename = (str5cpy w.filename cfg_sz_max p.filename cfg_sz_max notrunc).0 })
      else insane m
    where
      w : WatchConfig
      w = m.slot

  unfoldable pub merge_action : Merge → Merge
  merge_action m =
      if is_blank p.action
      then insane m
      else if streq p.action w.action
      then m
      else replaced m
          (record w { action = (str5cpy w.action cfg_sz_max p.action cfg_sz_max notrunc).0 })
    where
      w : WatchConfig
      w = m.slot

  unfoldable pub merge_label : Merge → Merge
  merge_label m =
      if streq p.label w.label
      then m
      else replaced m (record w { label = (str5cpy w.label cfg_sz_max p.label cfg_sz_max trunc).0 })
    where
      w : WatchConfig
      w = m.slot

  unfoldable pub merge_hidden : Merge → Merge
  merge_hidden m =
      if same_flag p.hidden w.hidden then m else replaced m (record w { hidden = p.hidden })
    where
      w : WatchConfig
      w = m.slot

  unfoldable pub merge_block_spawns : Merge → Merge
  merge_block_spawns m =
      if same_flag p.block_spawns w.block_spawns
      then m
      else replaced m (record w { block_spawns = p.block_spawns })
    where
      w : WatchConfig
      w = m.slot

  unfoldable pub merge_skip_db_checks : Merge → Merge
  merge_skip_db_checks m =
      if same_flag p.skip_db_checks w.skip_db_checks
      then m
      else replaced m (record w { skip_db_checks = p.skip_db_checks })
    where
      w : WatchConfig
      w = m.slot

  unfoldable pub merge_do_db_update : Merge → Merge
  merge_do_db_update m =
      if same_flag p.do_db_update w.do_db_update
      then m
      else replaced m (record w { do_db_update = p.do_db_update })
    where
      w : WatchConfig
      w = m.slot

  unfoldable pub merge_db_title : Merge → Merge
  merge_db_title m =
      if is_blank p.db_title
      then insane m
      else if streq p.db_title w.db_title
      then m
      else replaced m
          (record w { db_title = (str5cpy w.db_title db_sz_max p.db_title db_sz_max trunc).0 })
    where
      w : WatchConfig
      w = m.slot

  unfoldable pub merge_db_author : Merge → Merge
  merge_db_author m =
      if is_blank p.db_author
      then insane m
      else if streq p.db_author w.db_author
      then m
      else replaced m
          (record w { db_author = (str5cpy w.db_author db_sz_max p.db_author db_sz_max trunc).0 })
    where
      w : WatchConfig
      w = m.slot

  unfoldable pub merge_db_comment : Merge → Merge
  merge_db_comment m =
      if is_blank p.db_comment
      then insane m
      else if streq p.db_comment w.db_comment
      then m
      else replaced m (record w {
        db_comment = (str5cpy w.db_comment db_sz_max p.db_comment db_sz_max trunc).0;
      })
    where
      w : WatchConfig
      w = m.slot

  -- The three texts, if a database update is asked for.
  unfoldable pub merge_db_texts : Merge → Merge
  merge_db_texts m =
      if p.do_db_update then merge_db_comment (merge_db_author (merge_db_title m)) else m

  -- The merged watch and the two flags at the end.
  unfoldable pub merge_all : List WatchConfig → ℕ → Merge
  merge_all ws target_idx = merge_db_texts (
      merge_do_db_update (
        merge_skip_db_checks (
          merge_block_spawns (
            merge_hidden (
              merge_label (
                merge_action (
                  merge_filename ws target_idx
                    (record { slot = watch_at ws target_idx; sane = true; updated = false }))))))))

  -- The watches after the call, the result, and `*was_updated` (false before the call).
  unfoldable pub validate_and_merge_watch_config :
      List WatchConfig → ℕ → List WatchConfig × Bool × Bool
  validate_and_merge_watch_config ws target_idx =
      let m = merge_all ws target_idx in (set ws target_idx m.slot, m.sane, m.sane && m.updated)
