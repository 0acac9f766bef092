-- ===== src/Config/Update/Displaced.antt =====
-- A watch whose file is moved to another directory, in update_watch_configs of kfmon.c.
use kfmon.Prelude.{
  All, suc, ℕ, ◌≡◌, refl, ap, ◌∙◌, Bool, true, false, not, none, some, List, [], ◌∷◌, get_elem?,
  set, get_elem?-set_ne, find_from-passes, arith, Bool-cases, Option-cases, inl, inr, if◌then◌else◌,
}
use kfmon.Config.{WatchConfig, zero_watch, get_next_available_watch_entry}
use kfmon.Config.Library.{Str5cpy, Inih}
use kfmon.Config.Handlers.{watch_handler}
use kfmon.Config.Validate.{validate_watch_config, has_basename}
use kfmon.Config.Names.{IsFresh-at}
use kfmon.Config.WellFormed.{validate_watch_config_iff}
use kfmon.Config.Update.{
  Visit, Update, find_watch, place_watch, add_watch, is_watch_file, update_parsed, update_file,
  update_entry, update_entries, updated, update_watch_configs, purge, is_kept,
}
use kfmon.Config.Update.Purge.{purge-Confirmed}

-- Slot `j` holds an active watch whose file has the basename of that of `w`.
record IsRival (ws : List WatchConfig) (w : WatchConfig) : Type 0 where
  slot : ℕ
  holder : WatchConfig
  there : get_elem? ws slot ≡ some holder
  active : holder.is_active ≡ true
  same_name : has_basename w.filename holder ≡ true

rival-invalid :
    (ws : List WatchConfig) (w : WatchConfig) → IsRival ws w → validate_watch_config ws w ≡ false
rival-invalid ws w r = elim (Bool-cases (validate_watch_config ws w)) [
  | inr e ↦ e
  | inl e ↦
      let (sane, fresh) = (validate_watch_config_iff ws w).0 e in
      absurd (
        ground
          (arith, r.same_name, IsFresh-at w.filename r.slot r.holder ws r.there r.active fresh))
]

-- The slot that is found is not the rival's.
IsRival-set :
    (ws : List WatchConfig) (w : WatchConfig) (i : ℕ)
    → get_next_available_watch_entry ws ≡ some i
    → IsRival ws w
    → IsRival (set ws i w) w
unfolding get_next_available_watch_entry
IsRival-set ws w i e r =
    let (k, x, at, there, free) = find_from-passes (λ w. not w.is_active) 0 ws i e in
    record {
      slot = r.slot;
      holder = r.holder;
      there = get_elem?-set_ne ws i r.slot w (λ same. ground (arith, r.there, r.active)) ∙ r.there;
      active = r.active;
      same_name = r.same_name;
    }

add_watch-refused :
    (u : Update) (w : WatchConfig)
    → IsRival u.watches w
    → (u' : Update) × (add_watch u w ≡ some u') × (u'.kept ≡ u.kept)
unfolding add_watch place_watch
add_watch-refused u w r = elim (Option-cases (get_next_available_watch_entry u.watches)) [
  | inl e ↦ (u, rw (add_watch, e) refl, refl)
  | inr (i, e) ↦
      let f = rival-invalid (set u.watches i w) w (IsRival-set u.watches w i e r) in
      (
        record u { watches = set (set u.watches i w) i zero_watch },
        rw (add_watch, e, place_watch, f) refl,
        refl,
      )
]

All-at :
    (P : WatchConfig → Type 0) (ws : List WatchConfig)
    → ((k : ℕ) (x : WatchConfig) → get_elem? ws k ≡ some x → P x)
    → All P ws
All-at P [] h = tt
All-at P (w ∷ ws) h = (h 0 w refl, All-at P ws (λ k. h (suc k)))

not_kept : (k : ℕ) (kept : List ℕ) → kept ≡ [] → is_kept k kept ≡ true → ⊥
unfolding is_kept
not_kept k [] e h = ground arith
not_kept k (i ∷ kept) e h = ground arith

-- If the directory holds one watch file, and its file has been moved: to another path with the basename
-- that an active watch has. Then the update ends with no active watch at all: the old one keeps the new
-- one out, and is purged afterwards.
pub update_watch_configs-displaced :
    (str5cpy : Str5cpy) (inih : Inih) (v : Visit) (ws : List WatchConfig) (w holder : WatchConfig)
    (j : ℕ)
    → is_watch_file v.entry ≡ true
    → inih.ini_parse WatchConfig v.entry.path (watch_handler str5cpy) zero_watch ≡ (w, true)
    → find_watch w.filename ws ≡ none
    → (get_elem? ws j ≡ some holder) × (holder.is_active ≡ true)
    → has_basename w.filename holder ≡ true
    → (u : Update) × (update_watch_configs str5cpy inih (some (v ∷ [])) ws ≡ updated u)
      × All (λ x. x.is_active ≡ false) u.watches
unfolding update_watch_configs update_entries update_entry update_file update_parsed purge
update_watch_configs-displaced str5cpy inih v ws w holder j e p n (at, active) same =
    let start : Update = record { watches = ws; kept = []; notify = false } in
    let r : IsRival ws w = record {
      slot = j;
      holder = holder;
      there = at;
      active = active;
      same_name = same;
    } in
    let (u, f, g) = add_watch-refused start w r in
    let parsed : update_parsed str5cpy v.table start w ≡ some u = rw (update_parsed, n) f in
    let file : update_file str5cpy inih v.table start v.entry.path ≡ some u =
      ap
        (λ (r : WatchConfig × Bool).
          if r.1 then update_parsed str5cpy v.table start r.0 else some start)
        p
      ∙ parsed in
    let entry : update_entry str5cpy inih start v ≡ some u = rw (update_entry, e) file in
    (
      purge u,
      rw (update_watch_configs, update_entries, entry) refl,
      All-at (λ x. x.is_active ≡ false) (purge u).watches
          (λ k x h. elim (Bool-cases x.is_active) [
            | inr a ↦ a
            | inl a ↦ absurd (not_kept k u.kept g (purge-Confirmed u k x h a))
          ]),
    )
