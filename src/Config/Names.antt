-- ===== src/Config/Names.antt =====
-- No two active watches have the same basename: what the checks of the names give, and what keeps it.
use kfmon.Prelude.{
  ℕ, zero, suc, ◌≡◌, refl, sym, ap, ◌∙◌, true, false, some, List, [], ◌∷◌, CString, streq, basename,
  All, set, get_elem?, arith, leb,
}
use mathlib.Core.Path.{subst}
use kfmon.Config.{WatchConfig}
use kfmon.Config.Validate.{count, has_basename, is_name_free}

-- No active watch has the basename of `name`.
abbrev pub IsFresh : CString → List WatchConfig → Type 0
IsFresh name = All (λ w. w.is_active ≡ true → has_basename name w ≡ false)

abbrev pub IsDistinct : List WatchConfig → Type 0
IsDistinct [] = Unit {0}
IsDistinct (w ∷ ws) = (w.is_active ≡ true → IsFresh w.filename ws) × IsDistinct ws

pub streq_sym : (a b : CString) → streq a b ≡ streq b a
unfolding streq
streq_sym [] [] = refl
streq_sym [] (d ∷ b) = refl
streq_sym (c ∷ a) [] = refl
streq_sym (c ∷ a) (d ∷ b) = ground (arith, streq_sym a b)

count-IsFresh :
    (name : CString) (ws : List WatchConfig)
    → leb 1 (count (has_basename name) ws) ≡ false
    → IsFresh name ws
unfolding count
count-IsFresh name [] h = tt
count-IsFresh name (w ∷ ws) h = ((λ a. ground arith), count-IsFresh name ws (ground arith))

pub is_name_free-IsFresh :
    (name : CString) (ws : List WatchConfig) → is_name_free ws name ≡ true → IsFresh name ws
unfolding is_name_free
is_name_free-IsFresh name ws h = count-IsFresh name ws (ground arith)

IsFresh-set :
    (name : CString) (i : ℕ) (v : WatchConfig) (ws : List WatchConfig)
    → (v.is_active ≡ true → has_basename name v ≡ false)
    → IsFresh name ws
    → IsFresh name (set ws i v)
IsFresh-set name i v [] n f = tt
IsFresh-set name zero v (w ∷ ws) n f = (n, f.1)
IsFresh-set name (suc i) v (w ∷ ws) n f = (f.0, IsFresh-set name i v ws n f.1)

-- A slot may be cleared.
pub set_inactive-IsDistinct :
    (i : ℕ) (v : WatchConfig) (ws : List WatchConfig)
    → v.is_active ≡ false
    → IsDistinct ws
    → IsDistinct (set ws i v)
set_inactive-IsDistinct i v [] e d = tt
set_inactive-IsDistinct zero v (w ∷ ws) e d = ((λ a. absurd (ground arith)), d.1)
set_inactive-IsDistinct (suc i) v (w ∷ ws) e d = (
  (λ a. IsFresh-set w.filename i v ws (λ b. absurd (ground arith)) (d.0 a)),
  set_inactive-IsDistinct i v ws e d.1,
)

-- A slot may get a watch whose basename no active watch has.
pub set_fresh-IsDistinct :
    (i : ℕ) (v : WatchConfig) (ws : List WatchConfig)
    → IsFresh v.filename ws
    → IsDistinct ws
    → IsDistinct (set ws i v)
set_fresh-IsDistinct i v [] f d = tt
set_fresh-IsDistinct zero v (w ∷ ws) f d = ((λ a. f.1), d.1)
set_fresh-IsDistinct (suc i) v (w ∷ ws) f d = (
  (λ a.
      IsFresh-set w.filename i v ws
        (λ b. streq_sym (basename w.filename) (basename v.filename) ∙ f.0 a) (d.0 a)),
  set_fresh-IsDistinct i v ws f.1 d.1,
)

pub IsFresh-at :
    (name : CString) (i : ℕ) (w : WatchConfig) (ws : List WatchConfig)
    → get_elem? ws i ≡ some w
    → w.is_active ≡ true
    → IsFresh name ws
    → has_basename name w ≡ false
IsFresh-at name i w [] e a f = absurd (ground arith)
IsFresh-at name zero w (x ∷ ws) e a f = ground (arith, f.0)
IsFresh-at name (suc i) w (x ∷ ws) e a f = IsFresh-at name i w ws e a f.1

-- An active watch may be changed in place as long as it keeps its file.
pub set_same-IsDistinct :
    (i : ℕ) (v w : WatchConfig) (ws : List WatchConfig)
    → get_elem? ws i ≡ some w
    → w.is_active ≡ true
    → v.filename ≡ w.filename
    → IsDistinct ws
    → IsDistinct (set ws i v)
set_same-IsDistinct i v w [] e a n d = tt
set_same-IsDistinct zero v w (x ∷ ws) e a n d = (
  (λ b.
      subst (λ s. IsFresh s ws) (ap (λ (y : WatchConfig). y.filename) (some_eq e) ∙ sym n)
        (d.0 (ground arith))),
  d.1,
)
  where
    some_eq : some x ≡ some w → x ≡ w
    some_eq p = ground arith
set_same-IsDistinct (suc i) v w (x ∷ ws) e a n d = (
  (λ b.
      IsFresh-set x.filename i v ws
        (λ c.
          ap (λ s. streq (basename x.filename) (basename s)) n
          ∙ IsFresh-at x.filename i w ws e a (d.0 b))
        (d.0 b)),
  set_same-IsDistinct i v w ws e a n d.1,
)
