-- ===== src/Config/Alike.antt =====
-- Two watch arrays that differ only in the fields that the running daemon sets.
use kfmon.Prelude.{
  ℕ, zero, suc, ◌<◌, ◌≡◌, refl, sym, ap, ◌∙◌, List, [], ◌∷◌, CString, streq, basename, All, set,
  arith, length,
}
use mathlib.Core.Path.{subst}
use kfmon.Config.{WatchConfig, watch_at}
use kfmon.Config.Names.{IsFresh, IsDistinct}
use kfmon.Config.WellFormed.{HasTexts, IsWatch, WellFormed}

-- The configured fields, and whether the slot is in use.
pub record SameKeys (w v : WatchConfig) : Type 0 where
  pub is_active : v.is_active ≡ w.is_active
  pub filename : v.filename ≡ w.filename
  pub action : v.action ≡ w.action
  pub label : v.label ≡ w.label
  pub do_db_update : v.do_db_update ≡ w.do_db_update
  pub db_title : v.db_title ≡ w.db_title
  pub db_author : v.db_author ≡ w.db_author
  pub db_comment : v.db_comment ≡ w.db_comment

pub SameKeys-refl : (w : WatchConfig) → SameKeys w w
SameKeys-refl w = record {
  is_active = refl;
  filename = refl;
  action = refl;
  label = refl;
  do_db_update = refl;
  db_title = refl;
  db_author = refl;
  db_comment = refl;
}

abbrev pub Alike : List WatchConfig → List WatchConfig → Type 0
Alike [] [] = Unit {0}
Alike [] (v ∷ vs) = ⊥
Alike (w ∷ ws) [] = ⊥
Alike (w ∷ ws) (v ∷ vs) = SameKeys w v × Alike ws vs

pub Alike-refl : (ws : List WatchConfig) → Alike ws ws
Alike-refl [] = tt
Alike-refl (w ∷ ws) = (SameKeys-refl w, Alike-refl ws)

pub set-Alike :
    (ws : List WatchConfig) (i : ℕ) (v : WatchConfig)
    → SameKeys (watch_at ws i) v
    → Alike ws (set ws i v)
set-Alike [] i v s = tt
set-Alike (w ∷ ws) zero v s = (s, Alike-refl ws)
set-Alike (w ∷ ws) (suc i) v s = (SameKeys-refl w, set-Alike ws i v s)

HasTexts-SameKeys : (w v : WatchConfig) → SameKeys w v → HasTexts w → HasTexts v
HasTexts-SameKeys w v s h = ground (arith, s.do_db_update, s.db_title, s.db_author, s.db_comment, h)

pub IsWatch-SameKeys : (w v : WatchConfig) → SameKeys w v → IsWatch w → IsWatch v
IsWatch-SameKeys w v s h = (
  record {
    filename_fits = subst (λ x. length x < 128) (sym s.filename) h.0.filename_fits;
    action_fits = subst (λ x. length x < 128) (sym s.action) h.0.action_fits;
    label_fits = subst (λ x. length x < 128) (sym s.label) h.0.label_fits;
    title_fits = subst (λ x. length x < 128) (sym s.db_title) h.0.title_fits;
    author_fits = subst (λ x. length x < 128) (sym s.db_author) h.0.author_fits;
    comment_fits = subst (λ x. length x < 128) (sym s.db_comment) h.0.comment_fits;
  },
  (λ a.
      let p = h.1 (sym s.is_active ∙ a) in
      record {
        filename_set = ground (arith, s.filename, p.filename_set);
        action_set = ground (arith, s.action, p.action_set);
        texts_set = HasTexts-SameKeys w v s p.texts_set;
      }),
)

IsFresh-Alike :
    (name : CString) (ws vs : List WatchConfig) → Alike ws vs → IsFresh name ws → IsFresh name vs
IsFresh-Alike name [] [] a f = tt
IsFresh-Alike name [] (v ∷ vs) a f = absurd a
IsFresh-Alike name (w ∷ ws) [] a f = absurd a
IsFresh-Alike name (w ∷ ws) (v ∷ vs) a f = (
  (λ b. ap (λ x. streq (basename name) (basename x)) a.0.filename ∙ f.0 (sym a.0.is_active ∙ b)),
  IsFresh-Alike name ws vs a.1 f.1,
)

IsDistinct-Alike : (ws vs : List WatchConfig) → Alike ws vs → IsDistinct ws → IsDistinct vs
IsDistinct-Alike [] [] a d = tt
IsDistinct-Alike [] (v ∷ vs) a d = absurd a
IsDistinct-Alike (w ∷ ws) [] a d = absurd a
IsDistinct-Alike (w ∷ ws) (v ∷ vs) a d = (
  (λ b.
      subst (λ x. IsFresh x vs) (sym a.0.filename)
        (IsFresh-Alike w.filename ws vs a.1 (d.0 (sym a.0.is_active ∙ b)))),
  IsDistinct-Alike ws vs a.1 d.1,
)

length-Alike : (ws vs : List WatchConfig) → Alike ws vs → length vs ≡ length ws
length-Alike [] [] a = refl
length-Alike [] (v ∷ vs) a = absurd a
length-Alike (w ∷ ws) [] a = absurd a
length-Alike (w ∷ ws) (v ∷ vs) a = ap suc (length-Alike ws vs a.1)

All-Alike : (ws vs : List WatchConfig) → Alike ws vs → All IsWatch ws → All IsWatch vs
All-Alike [] [] a h = tt
All-Alike [] (v ∷ vs) a h = absurd a
All-Alike (w ∷ ws) [] a h = absurd a
All-Alike (w ∷ ws) (v ∷ vs) a h = (IsWatch-SameKeys w v a.0 h.0, All-Alike ws vs a.1 h.1)

pub Alike-WellFormed : (ws vs : List WatchConfig) → Alike ws vs → WellFormed ws → WellFormed vs
Alike-WellFormed ws vs a h = record {
  complete = length-Alike ws vs a ∙ h.complete;
  watches = All-Alike ws vs a h.watches;
  distinct = IsDistinct-Alike ws vs a h.distinct;
}
