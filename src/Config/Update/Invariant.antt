-- ===== src/Config/Update/Invariant.antt =====
-- update_watch_configs keeps the watch array well-formed.
use kfmon.Prelude.{
  All, ◌⊎◌, ℕ, ◌<◌, ◌≡◌, refl, sym, ap, ◌∙◌, true, false, ◌&&◌, ◌||◌, Option, none, some, List, [],
  ◌∷◌, CString, arith, if_all, Bool-cases, Option-cases, inl, inr, length, length-set, All-set,
  All-get_or, set, set-set, get_elem?, get_or-eq, is_blank, ltb,
}
use mathlib.Core.Path.{subst}
use kfmon.Process.Table.{ProcessTable, is_watch_already_spawned}
use kfmon.Config.{WatchConfig, zero_watch, watch_max, watch_at, get_next_available_watch_entry}
use kfmon.Config.Library.{Str5cpy, Str5Laws, Inih}
use kfmon.Config.Handlers.{watch_handler}
use kfmon.Config.Handlers.Refusal.{IsSized}
use kfmon.Config.Validate.{validate_watch_config}
use kfmon.Config.Merge.{merge_all, validate_and_merge_watch_config}
use kfmon.Config.Merge.Result.{merged, merge_all-merged}
use kfmon.Config.Names.{set_same-IsDistinct}
use kfmon.Config.WellFormed.{
  HasTexts, IsWatch, WellFormed, zero_watch-IsWatch, set_inactive-WellFormed, activate-WellFormed,
}
use kfmon.Config.Update.Purge.{purge-WellFormed}
use kfmon.Config.Update.Search.{Within, Found, find_watch-Found}
use kfmon.Config.Update.Confirmed.{IsConfirmed, finish-IsConfirmed}
use kfmon.Config.Load.Startup.{parsed-IsIdle}
use kfmon.Config.Update.{
  Visit, Update, keep, find_watch, place_watch, add_watch, merge_watch, update_watch, update_parsed,
  update_file, update_entry, update_entries, is_watch_file, purge, finish, updated,
  update_watch_configs,
}

abbrev IsFormed : Update → Type 0
IsFormed u = WellFormed u.watches

keep-IsFormed : (i : ℕ) (u : Update) → IsFormed u → Within IsFormed (keep i u)
unfolding keep
keep-IsFormed i u h = elim (Bool-cases (ltb (length u.kept) watch_max)) [
  | inl e ↦ rw e h
  | inr e ↦ rw e tt
]

place_watch-IsFormed :
    (u : Update) (w : WatchConfig) (i : ℕ)
    → IsSized w
    → w.is_active ≡ false
    → IsFormed u
    → Within IsFormed (place_watch u w i)
unfolding place_watch
place_watch-IsFormed u w i s a h =
    let formed = set_inactive-WellFormed u.watches i w s a h in
    let ws = set u.watches i w in
    elim (Bool-cases (validate_watch_config ws w)) [
      | inl e ↦ rw e (
          keep-IsFormed i
            (record u { watches = set ws i (record w { is_active = true }); notify = true })
            (activate-WellFormed ws i w s e formed))
      | inr e ↦ rw e (set_inactive-WellFormed ws i zero_watch zero_watch-IsWatch.0 refl formed)
    ]

add_watch-IsFormed :
    (u : Update) (w : WatchConfig)
    → IsSized w
    → w.is_active ≡ false
    → IsFormed u
    → Within IsFormed (add_watch u w)
unfolding add_watch
add_watch-IsFormed u w s a h = elim (Option-cases (get_next_available_watch_entry u.watches)) [
  | inl e ↦ rw (e, add_watch) h
  | inr (i, e) ↦ rw (e, add_watch) (place_watch-IsFormed u w i s a h)
]

-- The old watch with what was parsed is a watch again.
merged-IsWatch :
    (p w : WatchConfig)
    → IsSized p
    → IsSized w
    → p.filename ≡ w.filename
    → is_blank p.filename ≡ false
    → is_blank p.action ≡ false
    → HasTexts p
    → IsWatch (merged p w)
merged-IsWatch p w s t e file act texts = (
  record {
    filename_fits = t.filename_fits;
    action_fits = s.action_fits;
    label_fits = s.label_fits;
    title_fits = if_all (λ (x : CString). length x < 128) p.do_db_update s.title_fits t.title_fits;
    author_fits =
        if_all (λ (x : CString). length x < 128) p.do_db_update s.author_fits t.author_fits;
    comment_fits =
        if_all (λ (x : CString). length x < 128) p.do_db_update s.comment_fits t.comment_fits;
  },
  (λ a. record {
    filename_set = subst (λ x. is_blank x ≡ false) e file;
    action_set = act;
    texts_set = ground (arith, texts);
  }),
)

finish-WellFormed :
    (u : Update) (o : Option Update)
    → Within IsFormed o
    → finish o ≡ updated u
    → WellFormed u.watches
finish-WellFormed u none p q = absurd (ground arith)
finish-WellFormed u (some u') p q =
    let same : purge u' ≡ u = ground arith in
    subst (λ (x : Update). WellFormed x.watches) same (purge-WellFormed u' p)

module _ (str5cpy : Str5cpy) (laws : Str5Laws str5cpy) where
  merge_watch-IsFormed :
      (u : Update) (p : WatchConfig) (i : ℕ)
      → IsSized p
      → Found p.filename u.watches i
      → IsFormed u
      → Within IsFormed (merge_watch str5cpy u p i)
  unfolding merge_watch validate_and_merge_watch_config
  merge_watch-IsFormed u p i s f h =
      let ws = u.watches in
      let w = watch_at ws i in
      let at : w ≡ f.watch = get_or-eq ws i zero_watch f.at_slot in
      let here : get_elem? ws i ≡ some w = f.at_slot ∙ ap some (sym at) in
      let file : p.filename ≡ w.filename =
        f.same_file ∙ ap (λ (x : WatchConfig). x.filename) (sym at) in
      let alive : w.is_active ≡ true = ap (λ (x : WatchConfig). x.is_active) at ∙ f.active in
      let sized = (All-get_or IsWatch ws i zero_watch zero_watch-IsWatch h.watches).0 in
      let m = merge_all str5cpy p ws i in
      elim (Bool-cases m.sane) [
        | inl e ↦
            let (b, c, d, eq) = merge_all-merged str5cpy laws p s ws i file e in
            let formed : WellFormed (set ws i m.slot) =
              subst (λ x. WellFormed (set ws i x)) (sym eq)
                (record {
                  complete = length-set ws i (merged p w) ∙ h.complete;
                  watches =
                      All-set IsWatch ws i (merged p w) (merged-IsWatch p w s sized file b c d)
                        h.watches;
                  distinct = set_same-IsDistinct i (merged p w) w ws here alive refl h.distinct;
                }) in
            rw e (
              keep-IsFormed i
                (record u { watches = set ws i m.slot; notify = u.notify || (true && m.updated) })
                formed)
        | inr e ↦
            rw (e, set-set ws i m.slot zero_watch)
              (set_inactive-WellFormed ws i zero_watch zero_watch-IsWatch.0 refl h)
      ]

  update_parsed-IsFormed :
      (pt : ProcessTable) (u : Update) (p : WatchConfig)
      → IsSized p
      → p.is_active ≡ false
      → IsFormed u
      → Within IsFormed (update_parsed str5cpy pt u p)
  unfolding update_parsed update_watch
  update_parsed-IsFormed pt u p s a h = elim (Option-cases (find_watch p.filename u.watches)) [
    | inl e ↦ rw (e, update_parsed) (add_watch-IsFormed u p s a h)
    | inr (i, e) ↦
        rw (e, update_parsed)
          (if_all (Within IsFormed) (is_watch_already_spawned pt i) (keep-IsFormed i u h)
            (merge_watch-IsFormed u p i s (find_watch-Found p.filename u.watches i e) h))
  ]

  module _ (inih : Inih) where
    update_entry-IsFormed :
        (u : Update) (v : Visit) → IsFormed u → Within IsFormed (update_entry str5cpy inih u v)
    unfolding update_entry update_file
    update_entry-IsFormed u v h =
        let idle =
          parsed-IsIdle inih str5cpy laws v.entry.path zero_watch zero_watch-IsWatch.0 refl in
        if_all (Within IsFormed) (is_watch_file v.entry)
          (if_all (Within IsFormed)
            (inih.ini_parse WatchConfig v.entry.path (watch_handler str5cpy) zero_watch).1
            (update_parsed-IsFormed v.table u _ idle.0 idle.1 h) h)
          h

    update_entries-IsFormed :
        (u : Update) (vs : List Visit)
        → IsFormed u
        → Within IsFormed (update_entries str5cpy inih u vs)
    unfolding update_entries
    update_entries-IsFormed u [] h = h
    update_entries-IsFormed u (v ∷ vs) h =
        go (update_entry str5cpy inih u v) (update_entry-IsFormed u v h)
          (λ u'. update_entries-IsFormed u' vs)
      where
        go :
            (o : Option Update)
            → Within IsFormed o
            → ((u' : Update) → IsFormed u' → Within IsFormed (update_entries str5cpy inih u' vs))
            → Within IsFormed (elim o [ none ↦ none | some u' ↦ update_entries str5cpy inih u' vs ])
        go none w rec = tt
        go (some u') w rec = rec u' w

    -- Whatever has been added, removed or edited in the configuration directory, and whatever runs: an
    -- update that ends keeps the watch array well-formed (each active watch has its mandatory keys, every
    -- text fits, no two active watches share a basename), and for each watch still active there is a
    -- configuration file in the directory that was parsed without an error and names the watch's file.
    pub update_watch_configs-WellFormed :
        (walk : Option (List Visit)) (ws : List WatchConfig) (u : Update)
        → WellFormed ws
        → update_watch_configs str5cpy inih walk ws ≡ updated u
        → WellFormed u.watches
          × All (λ w. (w.is_active ≡ false) ⊎ IsConfirmed str5cpy inih walk w.filename) u.watches
    unfolding update_watch_configs
    update_watch_configs-WellFormed none ws u h e = absurd (ground arith)
    update_watch_configs-WellFormed (some vs) ws u h e =
        let start : Update = record { watches = ws; kept = []; notify = false } in
        (
          finish-WellFormed u (update_entries str5cpy inih start vs)
              (update_entries-IsFormed start vs h) e,
          finish-IsConfirmed str5cpy laws inih vs ws u e,
        )
