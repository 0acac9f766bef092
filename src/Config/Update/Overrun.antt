-- ===== src/Config/Update/Overrun.antt =====
-- The bound of `new_watch_list`, which update_watch_configs writes without a test.
use kfmon.Prelude.{
  ℕ, ◌+◌, ◌<◌, ◌≤◌, ◌≡◌, refl, Bool, true, false, Option, none, some, List, [], ◌∷◌, ◌++◌, arith,
  if◌then◌else◌, if_all, Bool-cases, Option-cases, inl, inr, length, All, ltb, length-append,
}
use kfmon.Process.Table.{ProcessTable, is_watch_already_spawned}
use kfmon.Config.{WatchConfig, zero_watch, watch_max, get_next_available_watch_entry}
use kfmon.Config.Library.{Str5cpy, Inih}
use kfmon.Config.Handlers.{watch_handler}
use kfmon.Config.Validate.{validate_watch_config}
use kfmon.Config.Merge.{validate_and_merge_watch_config}
use kfmon.Config.Update.{
  Visit, Update, keep, find_watch, place_watch, add_watch, merge_watch, update_watch, update_parsed,
  update_file, update_entry, update_entries, is_watch_file, purge, updated, overrun,
  update_watch_configs,
}

-- The number of watch files among the entries.
unfoldable pub count_files : List Visit → ℕ
count_files [] = 0
count_files (v ∷ vs) = (if is_watch_file v.entry then 1 else 0) + count_files vs

-- A step that ends, with at most `more` new indices kept.
abbrev Grows : ℕ → Update → Option Update → Type 0
Grows more u none = ⊥
Grows more u (some u') = length u'.kept ≤ length u.kept + more

module _ (u : Update) (room : length u.kept < watch_max) where
  keep-Grows :
      (i : ℕ) (ws : List WatchConfig) (b : Bool)
      → Grows 1 u (keep i (record u { watches = ws; notify = b }))
  unfolding keep
  keep-Grows i ws b = elim (Bool-cases (ltb (length u.kept) watch_max)) [
    | inl e ↦ rw e (omega (arith, length-append u.kept (i ∷ [])))
    | inr e ↦ absurd (ground arith)
  ]

  place_watch-Grows : (w : WatchConfig) (i : ℕ) → Grows 1 u (place_watch u w i)
  unfolding place_watch
  place_watch-Grows w i =
      if_all (Grows 1 u) (validate_watch_config _ w) (keep-Grows i _ true) (omega arith)

  add_watch-Grows : (w : WatchConfig) → Grows 1 u (add_watch u w)
  unfolding add_watch
  add_watch-Grows w = elim (Option-cases (get_next_available_watch_entry u.watches)) [
    | inl e ↦ rw (e, add_watch) (omega arith)
    | inr (i, e) ↦ rw (e, add_watch) (place_watch-Grows w i)
  ]

  module _ (str5cpy : Str5cpy) where
    merge_watch-Grows : (w : WatchConfig) (i : ℕ) → Grows 1 u (merge_watch str5cpy u w i)
    unfolding merge_watch
    merge_watch-Grows w i =
        if_all (Grows 1 u) (validate_and_merge_watch_config str5cpy w u.watches i).1
          (keep-Grows i _ _) (omega arith)

    update_parsed-Grows :
        (pt : ProcessTable) (w : WatchConfig) → Grows 1 u (update_parsed str5cpy pt u w)
    unfolding update_parsed update_watch
    update_parsed-Grows pt w = elim (Option-cases (find_watch w.filename u.watches)) [
      | inl e ↦ rw (e, update_parsed) (add_watch-Grows w)
      | inr (i, e) ↦
          rw (e, update_parsed)
            (if_all (Grows 1 u) (is_watch_already_spawned pt i) (keep-Grows i u.watches u.notify)
              (merge_watch-Grows w i))
    ]

Grows-some :
    (more : ℕ) (u : Update) (o : Option Update)
    → Grows more u o
    → (u' : Update) × (o ≡ some u') × (length u'.kept ≤ length u.kept + more)
Grows-some more u none h = absurd h
Grows-some more u (some u') h = (u', refl, h)

abbrev weight : Visit → ℕ
weight v = if is_watch_file v.entry then 1 else 0

module _ (str5cpy : Str5cpy) (inih : Inih) where
  update_entry-Grows :
      (u : Update) (v : Visit)
      → length u.kept + weight v ≤ watch_max
      → Grows (weight v) u (update_entry str5cpy inih u v)
  unfolding update_entry update_file
  update_entry-Grows u v h = elim (Bool-cases (is_watch_file v.entry)) [
    | inr e ↦ rw e (omega arith)
    | inl e ↦
        let room : length u.kept < watch_max = ground arith in
        rw e (
          if_all (Grows 1 u)
            (inih.ini_parse WatchConfig v.entry.path (watch_handler str5cpy) zero_watch).1
            (update_parsed-Grows u room str5cpy v.table _) (omega arith))
  ]

  update_entries_total :
      (u : Update) (vs : List Visit)
      → length u.kept + count_files vs ≤ watch_max
      → (u' : Update) × (update_entries str5cpy inih u vs ≡ some u')
  unfolding update_entries count_files
  update_entries_total u [] h = (u, refl)
  update_entries_total u (v ∷ vs) h =
      let (u1, e, b) =
        Grows-some (weight v) u (update_entry str5cpy inih u v)
          (update_entry-Grows u v (omega arith)) in
      let (u2, f) = update_entries_total u1 vs (omega arith) in (u2, rw (e, update_entries) f)

  -- With at most WATCH_MAX watch files in the directory, an update ends and stays within
  -- `new_watch_list`, whatever the files hold.
  pub update_watch_configs_total :
      (vs : List Visit) (ws : List WatchConfig)
      → count_files vs ≤ watch_max
      → (u : Update) × (update_watch_configs str5cpy inih (some vs) ws ≡ updated u)
  unfolding update_watch_configs
  update_watch_configs_total vs ws h =
      let (u, e) =
        update_entries_total (record { watches = ws; kept = []; notify = false }) vs
          (omega arith) in
      (purge u, rw e)

  -- A watch file that names the file of the running active watch `i`.
  pub record Repeats (ws : List WatchConfig) (i : ℕ) (v : Visit) : Type 0 where
    pub is_watch : is_watch_file v.entry ≡ true
    pub parsed :
        (inih.ini_parse WatchConfig v.entry.path (watch_handler str5cpy) zero_watch).1 ≡ true
    pub found :
        find_watch
          (inih.ini_parse WatchConfig v.entry.path (watch_handler str5cpy) zero_watch).0.filename
          ws
        ≡ some i
    pub running : is_watch_already_spawned v.table i ≡ true

  update_entry-Repeats :
      (u : Update) (i : ℕ) (v : Visit)
      → Repeats u.watches i v
      → update_entry str5cpy inih u v ≡ keep i u
  unfolding update_entry update_file update_parsed update_watch
  update_entry-Repeats u i v r =
      rw (r.is_watch, r.parsed) (rw (r.found, update_parsed) (rw r.running refl))

  Repeats-overrun :
      (u : Update) (i : ℕ) (vs : List Visit)
      → All (Repeats u.watches i) vs
      → watch_max < length u.kept + length vs
      → length u.kept ≤ watch_max
      → update_entries str5cpy inih u vs ≡ none
  unfolding update_entries keep
  Repeats-overrun u i [] a h b = absurd (omega arith)
  Repeats-overrun u i (v ∷ vs) a h b = elim (Bool-cases (ltb (length u.kept) watch_max)) [
    | inr e ↦ rw (update_entry-Repeats u i v a.0, update_entries) (rw (e, keep))
    | inl e ↦
        rw (update_entry-Repeats u i v a.0, update_entries)
          (rw (e, keep)
            (Repeats-overrun (record u { kept = u.kept ++ i ∷ [] }) i vs a.1
              (omega (arith, length-append u.kept (i ∷ [])))
              (ground (arith, length-append u.kept (i ∷ [])))))
  ]

  -- With more than WATCH_MAX watch files that all name the file of one running watch, an update writes
  -- past the end of `new_watch_list`.
  pub update_watch_configs-overrun :
      (vs : List Visit) (ws : List WatchConfig) (i : ℕ)
      → All (Repeats ws i) vs
      → watch_max < length vs
      → update_watch_configs str5cpy inih (some vs) ws ≡ overrun
  unfolding update_watch_configs
  update_watch_configs-overrun vs ws i a h =
      let start : Update = record { watches = ws; kept = []; notify = false } in
      rw (Repeats-overrun start i vs a (omega arith) (omega arith))
