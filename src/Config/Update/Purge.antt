-- ===== src/Config/Update/Purge.antt =====
-- The purge of stale watches at the end of update_watch_configs.
use kfmon.Prelude.{
  ℕ, zero, suc, ◌+◌, ◌≡◌, refl, ap, ◌∙◌, true, not, ◌&&◌, some, List, [], ◌∷◌, CString, arith,
  if_all, Bool-cases, inl, inr, length, All, get_elem?,
}
use kfmon.Config.{WatchConfig}
use kfmon.Config.Names.{IsFresh, IsDistinct}
use kfmon.Config.WellFormed.{IsWatch, WellFormed, zero_watch-IsWatch}
use kfmon.Config.Update.{Update, is_kept, purge_from, purge}

module _ (kept : List ℕ) where
  length-purge_from : (i : ℕ) (ws : List WatchConfig) → length (purge_from i kept ws) ≡ length ws
  unfolding purge_from
  length-purge_from i [] = refl
  length-purge_from i (w ∷ ws) = ap suc (length-purge_from (suc i) ws)

  purge_from-IsWatch :
      (i : ℕ) (ws : List WatchConfig) → All IsWatch ws → All IsWatch (purge_from i kept ws)
  unfolding purge_from
  purge_from-IsWatch i [] a = tt
  purge_from-IsWatch i (w ∷ ws) a = (
    if_all IsWatch (w.is_active && not (is_kept i kept)) zero_watch-IsWatch a.0,
    purge_from-IsWatch (suc i) ws a.1,
  )

  purge_from-IsFresh :
      (name : CString) (i : ℕ) (ws : List WatchConfig)
      → IsFresh name ws
      → IsFresh name (purge_from i kept ws)
  unfolding purge_from
  purge_from-IsFresh name i [] f = tt
  purge_from-IsFresh name i (w ∷ ws) f = (
    (elim (Bool-cases (w.is_active && not (is_kept i kept))) [
      | inl e ↦ rw e (λ a. absurd (ground arith))
      | inr e ↦ rw e f.0
    ]),
    purge_from-IsFresh name (suc i) ws f.1,
  )

  purge_from-IsDistinct :
      (i : ℕ) (ws : List WatchConfig) → IsDistinct ws → IsDistinct (purge_from i kept ws)
  unfolding purge_from
  purge_from-IsDistinct i [] d = tt
  purge_from-IsDistinct i (w ∷ ws) d = (
    (elim (Bool-cases (w.is_active && not (is_kept i kept))) [
      | inl e ↦ rw e (λ a. absurd (ground arith))
      | inr e ↦ rw e (λ a. purge_from-IsFresh w.filename (suc i) ws (d.0 a))
    ]),
    purge_from-IsDistinct (suc i) ws d.1,
  )

  -- A watch is still active after the purge exactly if it was and its index was kept, and then nothing
  -- of it has changed.
  pub purge_from-active :
      (i k : ℕ) (ws : List WatchConfig) (w : WatchConfig)
      → get_elem? (purge_from i kept ws) k ≡ some w
      → w.is_active ≡ true
      → (is_kept (i + k) kept ≡ true) × (get_elem? ws k ≡ some w)
  unfolding purge_from
  purge_from-active i k [] w e a = absurd (ground arith)
  purge_from-active i zero (x ∷ ws) w e a =
      elim (Bool-cases (x.is_active && not (is_kept i kept))) [
        | inl s ↦ absurd (ground arith)
        | inr s ↦
            let same : x ≡ w = ground arith in
            (ground (arith, ap (λ (y : WatchConfig). y.is_active) same), ap some same)
      ]
  purge_from-active i (suc k) (x ∷ ws) w e a =
      let (p, q) = purge_from-active (suc i) k ws w e a in (ground arith, q)

pub purge-WellFormed : (u : Update) → WellFormed u.watches → WellFormed (purge u).watches
unfolding purge
purge-WellFormed u h = record {
  complete = length-purge_from u.kept 0 u.watches ∙ h.complete;
  watches = purge_from-IsWatch u.kept 0 u.watches h.watches;
  distinct = purge_from-IsDistinct u.kept 0 u.watches h.distinct;
}

-- Each active watch is in the list of those that a file confirmed.
abbrev pub Confirmed : Update → Type 0
Confirmed u =
    (k : ℕ) (w : WatchConfig)
    → get_elem? u.watches k ≡ some w
    → w.is_active ≡ true
    → is_kept k u.kept ≡ true

pub purge-Confirmed : (u : Update) → Confirmed (purge u)
unfolding purge
purge-Confirmed u k w e a =
    let (p, q) = purge_from-active u.kept 0 k u.watches w e a in ground arith
