-- ===== src/Process/Apart.antt =====
-- Taking one thread out of the list of reapers, or changing it in place.
use kfmon.Prelude.{◌≡◌, ◌≢◌, sym, List, [], ◌∷◌, ◌++◌, All}
use mathlib.Core.Path.{subst, ◌∙◌}
use kfmon.Process.System.{Reaper}
use kfmon.Process.Ownership.{slot_of, IsApart}

module _ {ℓ κ} {A : Type ℓ} (P : A → Type κ) (r : A) (after : List A) where
  pub All-mid : (before : List A) → All P (before ++ r ∷ after) → P r
  All-mid [] h = h.0
  All-mid (x ∷ before) h = All-mid before h.1

  pub All-remove : (before : List A) → All P (before ++ r ∷ after) → All P (before ++ after)
  All-remove [] h = h.1
  All-remove (x ∷ before) h = (h.0, All-remove before h.1)

  pub All-replace :
      (before : List A) (r' : A) → P r' → All P (before ++ r ∷ after) → All P (before ++ r' ∷ after)
  All-replace [] r' p h = (p, h.1)
  All-replace (x ∷ before) r' p h = (h.0, All-replace before r' p h.1)

module _ (r : Reaper) (after : List Reaper) where
  pub IsApart-remove :
      (before : List Reaper) → IsApart (before ++ r ∷ after) → IsApart (before ++ after)
  IsApart-remove [] h = h.1
  IsApart-remove (x ∷ before) h =
      (All-remove (λ q. slot_of q ≢ slot_of x) r after before h.0, IsApart-remove before h.1)

  -- The thread taken out shares its entry with none of the others.
  pub IsApart-others :
      (before : List Reaper)
      → IsApart (before ++ r ∷ after)
      → All (λ q. slot_of q ≢ slot_of r) (before ++ after)
  IsApart-others [] h = h.0
  IsApart-others (x ∷ before) h = (
    λ e. All-mid (λ q. slot_of q ≢ slot_of x) r after before h.0 (sym e),
    IsApart-others before h.1,
  )

  pub IsApart-replace :
      (before : List Reaper) (r' : Reaper)
      → slot_of r' ≡ slot_of r
      → IsApart (before ++ r ∷ after)
      → IsApart (before ++ r' ∷ after)
  IsApart-replace [] r' e h = (subst (λ i. All (λ q. slot_of q ≢ i) after) (sym e) h.0, h.1)
  IsApart-replace (x ∷ before) r' e h = (
    All-replace (λ q. slot_of q ≢ slot_of x) r after before r'
        (λ d. All-mid (λ q. slot_of q ≢ slot_of x) r after before h.0 (sym e ∙ d)) h.0,
    IsApart-replace before r' e h.1,
  )
