-- ===== src/Config/Update/Confirmed.antt =====
-- Which configuration files stand behind the watches that update_watch_configs of kfmon.c leaves active.
use kfmon.Prelude.{
  ℕ, ◌≡◌, ◌⊎◌, refl, sym, ap, ◌∙◌, Bool, true, false, ◌&&◌, ◌||◌, Option, none, some, List, [], ◌∷◌,
  CString, arith, if_all, Bool-cases, Option-cases, inl, inr, All, set-set, get_elem?, get_or-eq,
}
use mathlib.Core.Path.{subst}
use kfmon.Process.Table.{ProcessTable, is_watch_already_spawned}
use kfmon.Config.{WatchConfig, zero_watch, watch_at}
use kfmon.Config.Library.{Str5cpy, Str5Laws, Inih}
use kfmon.Config.Handlers.{watch_handler}
use kfmon.Config.Handlers.Refusal.{IsSized}
use kfmon.Config.Merge.{merge_all, validate_and_merge_watch_config}
use kfmon.Config.Merge.Result.{merge_all-merged}
use kfmon.Config.WellFormed.{zero_watch-IsWatch}
use kfmon.Config.Load.Startup.{parsed-IsIdle}
use kfmon.Config.Update.Seen.{Seen, keep-Seen, set-Seen, set_kept-Seen, add_watch-Seen, finish-Seen}
use kfmon.Config.Update.Search.{Within, Found, find_watch-Found}
use kfmon.Config.Update.{
  Visit, Update, find_watch, merge_watch, update_watch, update_parsed, update_file, update_entry,
  update_entries, is_watch_file, is_kept, updated, update_watch_configs,
}

-- The entry is a watch's configuration file, which is parsed without an error and names the file.
pub record Names (str5cpy : Str5cpy) (inih : Inih) (v : Visit) (name : CString) : Type 0 where
  pub is_watch : is_watch_file v.entry ≡ true
  pub parsed : WatchConfig
  pub whole :
      inih.ini_parse WatchConfig v.entry.path (watch_handler str5cpy) zero_watch ≡ (parsed, true)
  pub same_file : parsed.filename ≡ name

abbrev pub Somewhere : (Visit → Type 0) → List Visit → Type 0
Somewhere P [] = ⊥
Somewhere P (v ∷ vs) = P v ⊎ Somewhere P vs

-- Some entry that the walk visits names the file.
abbrev pub IsConfirmed : Str5cpy → Inih → Option (List Visit) → CString → Type 0
IsConfirmed str5cpy inih none name = ⊥
IsConfirmed str5cpy inih (some vs) name = Somewhere (λ v. Names str5cpy inih v name) vs

module _ (Q : CString → Type 0) where
  module _ (str5cpy : Str5cpy) (laws : Str5Laws str5cpy) where
    merge_watch-Seen :
        (u : Update) (p : WatchConfig) (i : ℕ)
        → IsSized p
        → Found p.filename u.watches i
        → Q p.filename
        → Seen Q u
        → Within (Seen Q) (merge_watch str5cpy u p i)
    unfolding merge_watch validate_and_merge_watch_config
    merge_watch-Seen u p i s f q h =
        let ws = u.watches in
        let w = watch_at ws i in
        let file : p.filename ≡ w.filename =
          f.same_file
          ∙ ap (λ (x : WatchConfig). x.filename) (sym (get_or-eq ws i zero_watch f.at_slot)) in
        let m = merge_all str5cpy p ws i in
        elim (Bool-cases m.sane) [
          | inl e ↦
              let (b, c, d, eq) = merge_all-merged str5cpy laws p s ws i file e in
              let same : p.filename ≡ m.slot.filename =
                file ∙ ap (λ (x : WatchConfig). x.filename) (sym eq) in
              rw e (set_kept-Seen Q u i m.slot (u.notify || (true && m.updated)) (subst Q same q) h)
          | inr e ↦
              rw (e, set-set ws i m.slot zero_watch)
                (set-Seen Q u i zero_watch true (λ a. absurd (ground arith)) h)
        ]

    update_parsed-Seen :
        (pt : ProcessTable) (u : Update) (p : WatchConfig)
        → IsSized p
        → Q p.filename
        → Seen Q u
        → Within (Seen Q) (update_parsed str5cpy pt u p)
    unfolding update_parsed update_watch
    update_parsed-Seen pt u p s q h = elim (Option-cases (find_watch p.filename u.watches)) [
      | inl e ↦ rw (e, update_parsed) (add_watch-Seen Q u p q h)
      | inr (i, e) ↦
          let f = find_watch-Found p.filename u.watches i e in
          let here =
            λ (w : WatchConfig) (at : get_elem? u.watches i ≡ some w) (a : w.is_active ≡ true).
              subst Q (f.same_file ∙ ap (λ (x : WatchConfig). x.filename) (same_elem f.at_slot at))
                q in
          rw (e, update_parsed)
            (if_all (Within (Seen Q)) (is_watch_already_spawned pt i) (keep-Seen Q i u here h)
              (merge_watch-Seen u p i s f q h))
    ]
      where
        same_elem : {o : Option WatchConfig} {x y : WatchConfig} → o ≡ some x → o ≡ some y → x ≡ y
        same_elem e f = ground arith

    module _ (inih : Inih) where
      update_entry-Seen :
          (u : Update) (v : Visit)
          → ((name : CString) → Names str5cpy inih v name → Q name)
          → Seen Q u
          → Within (Seen Q) (update_entry str5cpy inih u v)
      unfolding update_entry update_file
      update_entry-Seen u v q h =
          let r = inih.ini_parse WatchConfig v.entry.path (watch_handler str5cpy) zero_watch in
          let idle =
            parsed-IsIdle inih str5cpy laws v.entry.path zero_watch zero_watch-IsWatch.0 refl in
          elim (Bool-cases (is_watch_file v.entry)) [
            | inr e ↦ rw e h
            | inl e ↦ elim (Bool-cases r.1) [
              | inr f ↦ rw (e, f) h
              | inl f ↦
                  rw (e, f)
                    (update_parsed-Seen v.table u r.0 idle.0
                      (q r.0.filename (record {
                        is_watch = e;
                        parsed = r.0;
                        whole = ap (λ (b : Bool). (r.0, b)) f;
                        same_file = refl;
                      }))
                      h)
            ]
          ]

      update_entries-Seen :
          (u : Update) (vs : List Visit)
          → ((name : CString) → IsConfirmed str5cpy inih (some vs) name → Q name)
          → Seen Q u
          → Within (Seen Q) (update_entries str5cpy inih u vs)
      unfolding update_entries
      update_entries-Seen u [] q h = h
      update_entries-Seen u (v ∷ vs) q h =
          go (update_entry str5cpy inih u v) (update_entry-Seen u v (λ name n. q name (inl n)) h)
            (λ u'. update_entries-Seen u' vs (λ name n. q name (inr n)))
        where
          go :
              (o : Option Update)
              → Within (Seen Q) o
              → ((u' : Update) → Seen Q u' → Within (Seen Q) (update_entries str5cpy inih u' vs))
              → Within
                  (Seen Q)
                  (elim o [ none ↦ none | some u' ↦ update_entries str5cpy inih u' vs ])
          go none w rec = tt
          go (some u') w rec = rec u' w

pub finish-IsConfirmed :
    (str5cpy : Str5cpy) (laws : Str5Laws str5cpy) (inih : Inih) (vs : List Visit)
    (ws : List WatchConfig) (u : Update)
    → update_watch_configs str5cpy inih (some vs) ws ≡ updated u
    → All (λ w. (w.is_active ≡ false) ⊎ IsConfirmed str5cpy inih (some vs) w.filename) u.watches
unfolding update_watch_configs is_kept
finish-IsConfirmed str5cpy laws inih vs ws u e =
    let Q = IsConfirmed str5cpy inih (some vs) in
    let start : Update = record { watches = ws; kept = []; notify = false } in
    finish-Seen Q u (update_entries str5cpy inih start vs)
      (update_entries-Seen Q str5cpy laws inih start vs (λ name n. n)
        (λ k w at a b. absurd (ground arith)))
      e
