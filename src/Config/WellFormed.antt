-- ===== src/Config/WellFormed.antt =====
-- What the watch array satisfies between two calls, and what validate_watch_config decides.
use kfmon.Prelude.{
  ℕ, ◌≡◌, ◌↔◌, ◌⊎◌, refl, ap, ◌∙◌, true, false, List, [], ◌∷◌, CString, streq_iff, basename, All,
  set, arith, Bool-cases, inl, inr, length, length-set, is_blank, All-set, All-replicate, replicate,
}
use kfmon.Config.{WatchConfig, zero_watch, watch_max}
use kfmon.Config.Handlers.Refusal.{IsSized}
use kfmon.Config.Validate.{
  count, has_filename, has_basename, is_name_free, has_db_texts, validate_watch_config,
}
use kfmon.Config.Names.{
  IsFresh, IsDistinct, is_name_free-IsFresh, set_inactive-IsDistinct, set_fresh-IsDistinct,
}

-- A watch that asks for an update of the database has its three texts.
abbrev pub HasTexts : WatchConfig → Type 0
HasTexts w =
    (w.do_db_update ≡ false)
    ⊎ ((is_blank w.db_title ≡ false)
        × (is_blank w.db_author ≡ false)
        × (is_blank w.db_comment ≡ false))

pub has_db_texts_iff : (w : WatchConfig) → (has_db_texts w ≡ true) ↔ HasTexts w
unfolding has_db_texts
has_db_texts_iff w = ((λ h. ground arith), (λ h. ground arith))

-- The mandatory keys are there.
pub record IsSane (w : WatchConfig) : Type 0 where
  pub filename_set : is_blank w.filename ≡ false
  pub action_set : is_blank w.action ≡ false
  pub texts_set : HasTexts w

abbrev pub IsWatch : WatchConfig → Type 0
IsWatch w = IsSized w × (w.is_active ≡ true → IsSane w)

pub record WellFormed (ws : List WatchConfig) : Type 0 where
  pub complete : length ws ≡ watch_max
  pub watches : All IsWatch ws
  pub distinct : IsDistinct ws

pub zero_watch-IsWatch : IsWatch zero_watch
zero_watch-IsWatch = (omega arith, (λ a. absurd (ground arith)))

IsFresh-count :
    (name : CString) (ws : List WatchConfig)
    → IsFresh name ws
    → (count (has_filename name) ws ≡ 0) × (count (has_basename name) ws ≡ 0)
unfolding count
IsFresh-count name [] f = (refl, refl)
IsFresh-count name (w ∷ ws) f =
    let (p, q) = IsFresh-count name ws f.1 in
    elim (Bool-cases w.is_active) [
      | inr a ↦ (ground arith, ground arith)
      | inl a ↦
          let b = f.0 a in
          elim (Bool-cases (has_filename name w)) [
            | inr c ↦ (ground arith, ground arith)
            | inl c ↦ absurd (
                ground (
                  arith,
                  (streq_iff (basename name) (basename w.filename)).1
                      (ap basename ((streq_iff name w.filename).0 c)),
                ))
          ]
    ]

IsFresh-is_name_free :
    (name : CString) (ws : List WatchConfig) → IsFresh name ws → is_name_free ws name ≡ true
unfolding is_name_free
IsFresh-is_name_free name ws f = let (p, q) = IsFresh-count name ws f in rw (p, q)

-- validate_watch_config accepts a watch exactly when its file and action are given, the three database
-- texts are given if it asks for a database update, and no active watch has its basename.
pub validate_watch_config_iff :
    (ws : List WatchConfig) (w : WatchConfig)
    → (validate_watch_config ws w ≡ true) ↔ (IsSane w × IsFresh w.filename ws)
unfolding validate_watch_config
validate_watch_config_iff ws w = (
  (λ h. (
    record {
      filename_set = ground arith;
      action_set = ground arith;
      texts_set = (has_db_texts_iff w).0 (ground arith);
    },
    is_name_free-IsFresh w.filename ws (ground arith),
  )),
  (λ p. ground (
    arith,
    p.0.filename_set,
    p.0.action_set,
    (has_db_texts_iff w).1 p.0.texts_set,
    IsFresh-is_name_free w.filename ws p.1,
  )),
)

-- A slot may be cleared, or hold what is not active.
pub set_inactive-WellFormed :
    (ws : List WatchConfig) (i : ℕ) (v : WatchConfig)
    → IsSized v
    → v.is_active ≡ false
    → WellFormed ws
    → WellFormed (set ws i v)
set_inactive-WellFormed ws i v s e h = record {
  complete = length-set ws i v ∙ h.complete;
  watches = All-set IsWatch ws i v (s, (λ a. absurd (ground arith))) h.watches;
  distinct = set_inactive-IsDistinct i v ws e h.distinct;
}

-- A valid watch may be activated.
pub activate-WellFormed :
    (ws : List WatchConfig) (i : ℕ) (w : WatchConfig)
    → IsSized w
    → validate_watch_config ws w ≡ true
    → WellFormed ws
    → WellFormed (set ws i (record w { is_active = true }))
activate-WellFormed ws i w s e h =
    let v = record w { is_active = true } in
    let (p, f) = (validate_watch_config_iff ws w).0 e in
    record {
      complete = length-set ws i v ∙ h.complete;
      watches =
          All-set IsWatch ws i v
            (
              ground (arith, s),
              (λ a. record {
                filename_set = p.filename_set;
                action_set = p.action_set;
                texts_set = p.texts_set;
              }),
            )
            h.watches;
      distinct = set_fresh-IsDistinct i v ws f h.distinct;
    }

-- The zero-initialised array.
pub replicate-WellFormed : WellFormed (replicate watch_max zero_watch)
replicate-WellFormed = record {
  complete = refl;
  watches = All-replicate IsWatch watch_max zero_watch zero_watch-IsWatch;
  distinct = ground arith;
}
