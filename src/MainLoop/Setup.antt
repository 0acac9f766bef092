-- ===== src/MainLoop/Setup.antt =====
-- What the inotify setup leaves in each slot, and that the watches stay well-formed.
use kfmon.Prelude.{
  ℕ, zero, suc, ◌+◌, ◌≡◌, refl, Bool, true, false, none, some, List, [], ◌∷◌, arith, Bool-cases,
  inl, inr, if◌then◌else◌, get_elem?, ap, sym, ◌∙◌,
}
use mathlib.Core.Path.{subst}
use kfmon.Prelude.{CString, Handle, streq, basename, All, length, if_all}
use kfmon.Config.Names.{IsFresh, IsDistinct}
use kfmon.Config.WellFormed.{WellFormed, IsWatch, zero_watch-IsWatch}
use kfmon.Config.Alike.{IsWatch-SameKeys}
use kfmon.Events.Invariant.{same_keys}
use kfmon.Config.{WatchConfig}
use kfmon.Process.Table.{is_watch_already_spawned}
use kfmon.MainLoop.{
  Added, watching, missing, refused, setup_watch, Adding, setup_from, setup_watches,
}

-- An active watch in slot `i` has the descriptor that inotify gave, or its file is missing and it has
-- none, or inotify refused it and it has none but was running.
abbrev pub IsSetup : Added → Bool → WatchConfig → Type 0
IsSetup (watching wd) spawned w = w.inotify_wd ≡ some wd
IsSetup missing spawned w = w.inotify_wd ≡ none
IsSetup refused spawned w = (w.inotify_wd ≡ none) × (spawned ≡ true)

setup_watch-IsSetup :
    (a : Added) (spawned : Bool) (w : WatchConfig)
    → (setup_watch a spawned w).is_active ≡ true
    → IsSetup a spawned (setup_watch a spawned w)
unfolding setup_watch
setup_watch-IsSetup (watching wd) spawned w h = refl
setup_watch-IsSetup missing spawned w h = refl
setup_watch-IsSetup refused true w h = (refl, refl)
setup_watch-IsSetup refused false w h = absurd (ground arith)

abbrev IsSetupAt : (ℕ → Adding) → WatchConfig → ℕ → Type 0
IsSetupAt adding v i = IsSetup (adding i).added (is_watch_already_spawned (adding i).table i) v

setup_from-IsSetup :
    (adding : ℕ → Adding) (from i : ℕ) (ws : List WatchConfig) (v : WatchConfig)
    → get_elem? (setup_from adding from ws) i ≡ some v
    → v.is_active ≡ true
    → IsSetup
        (adding (from + i)).added
        (is_watch_already_spawned (adding (from + i)).table (from + i))
        v
unfolding setup_from
setup_from-IsSetup adding from i [] v e a = absurd (ground arith)
setup_from-IsSetup adding from zero (w ∷ ws) v e a = elim (Bool-cases w.is_active) [
  | inr b ↦ absurd (ground arith)
  | inl b ↦
      let x = adding from in
      let same : setup_watch x.added (is_watch_already_spawned x.table from) w ≡ v = ground arith in
      subst (IsSetupAt adding v) (omega arith) (
        subst (IsSetup x.added (is_watch_already_spawned x.table from)) same (
          setup_watch-IsSetup x.added (is_watch_already_spawned x.table from) w
            (ap (λ (y : WatchConfig). y.is_active) same ∙ a)))
]
setup_from-IsSetup adding from (suc i) (w ∷ ws) v e a =
    subst (IsSetupAt adding v) (omega arith) (setup_from-IsSetup adding (suc from) i ws v e a)

-- After the setup, each slot that holds an active watch has the descriptor that inotify gave, or none:
-- then its file is missing and it serves IPC only, or inotify refused it while its process ran.
pub setup_watches-IsSetup :
    (adding : ℕ → Adding) (i : ℕ) (ws : List WatchConfig) (v : WatchConfig)
    → get_elem? (setup_watches adding ws) i ≡ some v
    → v.is_active ≡ true
    → IsSetup (adding i).added (is_watch_already_spawned (adding i).table i) v
unfolding setup_watches
setup_watches-IsSetup adding i ws v e a =
    subst (IsSetupAt adding v) (omega arith) (setup_from-IsSetup adding 0 i ws v e a)

-- What the setup may leave of a watch: its configured fields, or a cleared slot.
record IsLeft (w v : WatchConfig) : Type 0 where
  watch : IsWatch w → IsWatch v
  named : v.is_active ≡ true → (w.is_active ≡ true) × (v.filename ≡ w.filename)

descriptor-IsLeft : (o : Handle) (w : WatchConfig) → IsLeft w (record w { inotify_wd = o })
descriptor-IsLeft o w = record {
  watch = IsWatch-SameKeys w (record w { inotify_wd = o }) (same_keys w _ refl);
  named = λ e. (e, refl);
}

setup_watch-IsLeft : (a : Added) (s : Bool) (w : WatchConfig) → IsLeft w (setup_watch a s w)
unfolding setup_watch
setup_watch-IsLeft (watching wd) s w = descriptor-IsLeft (some wd) w
setup_watch-IsLeft missing s w = descriptor-IsLeft none w
setup_watch-IsLeft refused true w = descriptor-IsLeft none w
setup_watch-IsLeft refused false w = record {
  watch = λ h. zero_watch-IsWatch;
  named = λ e. absurd (ground arith);
}

abbrev slot : Adding → ℕ → WatchConfig → WatchConfig
slot a i w = if w.is_active then setup_watch a.added (is_watch_already_spawned a.table i) w else w

slot-IsLeft : (a : Adding) (i : ℕ) (w : WatchConfig) → IsLeft w (slot a i w)
slot-IsLeft a i w =
    if_all (IsLeft w) w.is_active
      (setup_watch-IsLeft a.added (is_watch_already_spawned a.table i) w)
      (record { watch = λ h. h; named = λ e. (e, refl) })

module _ (adding : ℕ → Adding) where
  setup_from-IsFresh :
      (name : CString) (i : ℕ) (ws : List WatchConfig)
      → IsFresh name ws
      → IsFresh name (setup_from adding i ws)
  unfolding setup_from
  setup_from-IsFresh name i [] f = tt
  setup_from-IsFresh name i (w ∷ ws) f = (
    (λ b.
        let (p, q) = (slot-IsLeft (adding i) i w).named b in
        ap (λ x. streq (basename name) (basename x)) q ∙ f.0 p),
    setup_from-IsFresh name (suc i) ws f.1,
  )

  setup_from-IsDistinct :
      (i : ℕ) (ws : List WatchConfig) → IsDistinct ws → IsDistinct (setup_from adding i ws)
  unfolding setup_from
  setup_from-IsDistinct i [] d = tt
  setup_from-IsDistinct i (w ∷ ws) d = (
    (λ b.
        let (p, q) = (slot-IsLeft (adding i) i w).named b in
        subst (λ x. IsFresh x (setup_from adding (suc i) ws)) (sym q)
          (setup_from-IsFresh w.filename (suc i) ws (d.0 p))),
    setup_from-IsDistinct (suc i) ws d.1,
  )

  setup_from-All :
      (i : ℕ) (ws : List WatchConfig) → All IsWatch ws → All IsWatch (setup_from adding i ws)
  unfolding setup_from
  setup_from-All i [] h = tt
  setup_from-All i (w ∷ ws) h =
      ((slot-IsLeft (adding i) i w).watch h.0, setup_from-All (suc i) ws h.1)

  length-setup_from : (i : ℕ) (ws : List WatchConfig) → length (setup_from adding i ws) ≡ length ws
  unfolding setup_from
  length-setup_from i [] = refl
  length-setup_from i (w ∷ ws) = ap suc (length-setup_from (suc i) ws)

  pub setup_watches-WellFormed :
      (ws : List WatchConfig) → WellFormed ws → WellFormed (setup_watches adding ws)
  unfolding setup_watches
  setup_watches-WellFormed ws h = record {
    complete = length-setup_from 0 ws ∙ h.complete;
    watches = setup_from-All 0 ws h.watches;
    distinct = setup_from-IsDistinct 0 ws h.distinct;
  }
