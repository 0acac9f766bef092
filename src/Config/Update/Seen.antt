-- ===== src/Config/Update/Seen.antt =====
-- The slots that update_watch_configs of kfmon.c keeps, against the files seen so far.
use kfmon.Prelude.{
  ℕ, zero, suc, ◌≡◌, ◌⊎◌, refl, sym, ap, ◌∙◌, Bool, true, false, Option, none, some, List, [], ◌∷◌,
  ◌++◌, CString, arith, Bool-cases, Option-cases, inl, inr, length, All, set, set-set, get_elem?,
  ltb, ◌==◌,
}
use mathlib.Core.Path.{subst}
use kfmon.Config.{WatchConfig, zero_watch, watch_max, get_next_available_watch_entry}
use kfmon.Config.Validate.{validate_watch_config}
use kfmon.Config.Update.Purge.{purge_from-active}
use kfmon.Config.Update.Search.{Within}
use kfmon.Config.Update.{
  Update, keep, place_watch, add_watch, is_kept, purge, purge_from, finish, updated,
}

-- What stands in a slot after a write.
set-cases :
    (ws : List WatchConfig) (i k : ℕ) (x w : WatchConfig)
    → get_elem? (set ws i x) k ≡ some w
    → ((k ≡ i) × (x ≡ w)) ⊎ (get_elem? ws k ≡ some w)
set-cases [] i k x w e = inr e
set-cases (y ∷ ws) zero zero x w e = inl (refl, ground arith)
set-cases (y ∷ ws) zero (suc k) x w e = inr e
set-cases (y ∷ ws) (suc i) zero x w e = inr e
set-cases (y ∷ ws) (suc i) (suc k) x w e = elim (set-cases ws i k x w e) [
  | inl p ↦ inl (ap suc p.0, p.1)
  | inr p ↦ inr p
]

set-here :
    (ws : List WatchConfig) (i : ℕ) (x w : WatchConfig) → get_elem? (set ws i x) i ≡ some w → x ≡ w
set-here [] i x w e = absurd (ground arith)
set-here (y ∷ ws) zero x w e = ground arith
set-here (y ∷ ws) (suc i) x w e = set-here ws i x w e

is_kept-last :
    (k i : ℕ) (kept : List ℕ)
    → is_kept k (kept ++ i ∷ []) ≡ true
    → (k ≡ i) ⊎ (is_kept k kept ≡ true)
unfolding is_kept
is_kept-last k i [] e = ground arith
is_kept-last k i (j ∷ kept) e = elim (Bool-cases (k == j)) [
  | inl f ↦ inr (rw f refl)
  | inr f ↦ elim (is_kept-last k i kept (rw f at e)) [ inl p ↦ inl p | inr p ↦ inr (rw f p) ]
]

All-slots :
    (P : WatchConfig → Type 0) (ws : List WatchConfig)
    → ((k : ℕ) (w : WatchConfig) → get_elem? ws k ≡ some w → P w)
    → All P ws
All-slots P [] h = tt
All-slots P (w ∷ ws) h = (h 0 w refl, All-slots P ws (λ k. h (suc k)))

-- With the names that `Q` holds of as those seen so far.
module _ (Q : CString → Type 0) where
  -- Each active watch whose index was kept is on a file that was seen.
  abbrev pub Seen : Update → Type 0
  Seen u =
      (k : ℕ) (w : WatchConfig)
      → get_elem? u.watches k ≡ some w
      → w.is_active ≡ true
      → is_kept k u.kept ≡ true
      → Q w.filename

  pub keep-Seen :
      (i : ℕ) (u : Update)
      → ((w : WatchConfig) → get_elem? u.watches i ≡ some w → w.is_active ≡ true → Q w.filename)
      → Seen u
      → Within Seen (keep i u)
  unfolding keep
  keep-Seen i u q h = elim (Bool-cases (ltb (length u.kept) watch_max)) [
    | inr e ↦ rw e tt
    | inl e ↦ rw e (λ k w at a b. elim (is_kept-last k i u.kept b) [
      | inl p ↦ q w (ap (get_elem? u.watches) (sym p) ∙ at) a
      | inr p ↦ h k w at a p
    ])
  ]

  -- A write of what is not active, or on a file that was seen.
  pub set-Seen :
      (u : Update) (i : ℕ) (x : WatchConfig) (notify : Bool)
      → (x.is_active ≡ true → Q x.filename)
      → Seen u
      → Seen (record { watches = set u.watches i x; kept = u.kept; notify = notify })
  set-Seen u i x notify q h k w at a b = elim (set-cases u.watches i k x w at) [
    | inl p ↦
        subst (λ (y : WatchConfig). Q y.filename) p.1
          (q (ap (λ (y : WatchConfig). y.is_active) p.1 ∙ a))
    | inr p ↦ h k w p a b
  ]

  -- The same, when the slot is kept then.
  pub set_kept-Seen :
      (u : Update) (i : ℕ) (x : WatchConfig) (notify : Bool)
      → Q x.filename
      → Seen u
      → Within Seen
          (keep i (record { watches = set u.watches i x; kept = u.kept; notify = notify }))
  set_kept-Seen u i x notify q h =
      keep-Seen i (record { watches = set u.watches i x; kept = u.kept; notify = notify })
        (λ w at a. subst (λ (y : WatchConfig). Q y.filename) (set-here u.watches i x w at) q)
        (set-Seen u i x notify (λ a. q) h)

  place_watch-Seen :
      (u : Update) (w : WatchConfig) (i : ℕ)
      → Q w.filename
      → Seen u
      → Within Seen (place_watch u w i)
  unfolding place_watch
  place_watch-Seen u w i q h =
      let ws = set u.watches i w in
      let v = record w { is_active = true } in
      elim (Bool-cases (validate_watch_config ws w)) [
        | inl e ↦ rw (e, set-set u.watches i w v) (set_kept-Seen u i v true q h)
        | inr e ↦
            rw (e, set-set u.watches i w zero_watch)
              (set-Seen u i zero_watch u.notify (λ a. absurd (ground arith)) h)
      ]

  pub add_watch-Seen :
      (u : Update) (w : WatchConfig) → Q w.filename → Seen u → Within Seen (add_watch u w)
  unfolding add_watch
  add_watch-Seen u w q h = elim (Option-cases (get_next_available_watch_entry u.watches)) [
    | inl e ↦ rw (e, add_watch) h
    | inr (i, e) ↦ rw (e, add_watch) (place_watch-Seen u w i q h)
  ]

  purge-Seen :
      (u : Update) → Seen u → All (λ w. (w.is_active ≡ false) ⊎ Q w.filename) (purge u).watches
  unfolding purge
  purge-Seen u h =
      All-slots (λ w. (w.is_active ≡ false) ⊎ Q w.filename) (purge_from 0 u.kept u.watches)
        (λ k w e. elim (Bool-cases w.is_active) [
          | inr a ↦ inl a
          | inl a ↦
              let (p, q) = purge_from-active u.kept 0 k u.watches w e a in
              inr (h k w q a (ground arith))
        ])

  pub finish-Seen :
      (u : Update) (o : Option Update)
      → Within Seen o
      → finish o ≡ updated u
      → All (λ w. (w.is_active ≡ false) ⊎ Q w.filename) u.watches
  finish-Seen u none h e = absurd (ground arith)
  finish-Seen u (some u') h e =
      let same : purge u' ≡ u = ground arith in
      subst (λ (x : Update). All (λ w. (w.is_active ≡ false) ⊎ Q w.filename) x.watches) same
        (purge-Seen u' h)
