-- ===== src/Ipc/Targets.antt =====
-- Which watch a command means: the search of handle_ipc against what identifies a watch.
use kfmon.Prelude.{
  ℕ, zero, suc, ◌+◌, ◌≡◌, ◌↔◌, refl, sym, ap, ◌∙◌, Bool, true, false, ◌&&◌, some, List, [], ◌∷◌,
  CString, streq, streq_iff, basename, arith, Bool-cases, inl, inr, get_elem?, find_from,
  find_from-passes, ◌==◌,
}
use mathlib.Core.Path.{subst}
use kfmon.Config.{WatchConfig}
use kfmon.Config.Names.{IsFresh-at, IsDistinct}
use kfmon.Ipc.Commands.{Target, by_index, by_name, find_index, find_target}

-- The watch in slot `i` is called for: by its index, or by the basename of its file.
abbrev pub IsCalled : WatchConfig → ℕ → Target → Type 0
IsCalled w i (by_index id) = i ≡ id
IsCalled w i (by_name name) = basename w.filename ≡ name

pub record Meant (ws : List WatchConfig) (t : Target) (i : ℕ) : Type 0 where
  pub watch : WatchConfig
  pub at_slot : get_elem? ws i ≡ some watch
  pub active : watch.is_active ≡ true
  pub called : IsCalled watch i t

-- The same for a search that begins at index `from`.
record Hit (ws : List WatchConfig) (id from i : ℕ) : Type 0 where
  offset : ℕ
  watch : WatchConfig
  placed : i ≡ from + offset
  at_slot : get_elem? ws offset ≡ some watch
  active : watch.is_active ≡ true
  same : i ≡ id

find_index-Hit :
    (id from i : ℕ) (ws : List WatchConfig) → find_index id from ws ≡ some i → Hit ws id from i
unfolding find_index
find_index-Hit id from i [] h = absurd (ground arith)
find_index-Hit id from i (w ∷ ws) h = elim (Bool-cases (w.is_active && id == from)) [
  | inl e ↦ record {
    offset = 0;
    watch = w;
    placed = ground arith;
    at_slot = refl;
    active = ground arith;
    same = ground arith;
  }
  | inr e ↦
      let g = find_index-Hit id (suc from) i ws (rw e at h) in
      record {
        offset = suc g.offset;
        watch = g.watch;
        placed = omega (arith, g.placed);
        at_slot = g.at_slot;
        active = g.active;
        same = g.same;
      }
]

Hit-find_index :
    (id from k : ℕ) (ws : List WatchConfig) (w : WatchConfig)
    → get_elem? ws k ≡ some w
    → w.is_active ≡ true
    → id ≡ from + k
    → find_index id from ws ≡ some id
unfolding find_index
Hit-find_index id from k [] w e a p = absurd (ground arith)
Hit-find_index id from zero (x ∷ ws) w e a p = ground arith
Hit-find_index id from (suc k) (x ∷ ws) w e a p =
    ground (arith, Hit-find_index id (suc from) k ws w)

abbrev named : CString → WatchConfig → Bool
named name w = w.is_active && streq (basename w.filename) name

-- With distinct basenames the first hit is the only one.
named-find_from :
    (name : CString) (from k : ℕ) (ws : List WatchConfig) (w : WatchConfig)
    → IsDistinct ws
    → get_elem? ws k ≡ some w
    → w.is_active ≡ true
    → basename w.filename ≡ name
    → find_from (named name) from ws ≡ some (from + k)
named-find_from name from k [] w d e a p = absurd (ground arith)
named-find_from name from zero (x ∷ ws) w d e a p =
    let s = (streq_iff (basename w.filename) name).1 p in ground arith
named-find_from name from (suc k) (x ∷ ws) w d e a p = elim (Bool-cases (named name x)) [
  | inl h ↦
      let apart =
        subst (λ n. streq (basename x.filename) n ≡ false) p
          (IsFresh-at x.filename k w ws e a (d.0 (ground arith))) in
      absurd (ground (arith, apart))
  | inr h ↦ rw h (named-find_from name (suc from) k ws w d.1 e a p ∙ ap (λ n. some n) (omega arith))
]

-- For an array with distinct basenames, the search of a command finds slot `i` exactly when an active
-- watch with the given index, or with the given basename, is there.
pub find_target_iff :
    (ws : List WatchConfig) (t : Target) (i : ℕ)
    → IsDistinct ws
    → (find_target ws t ≡ some i) ↔ Meant ws t i
unfolding find_target
find_target_iff ws (by_index id) i d = (
  (λ h.
      let g = find_index-Hit id 0 i ws h in
      record {
        watch = g.watch;
        at_slot = subst (λ j. get_elem? ws j ≡ some g.watch) (omega (arith, g.placed)) g.at_slot;
        active = g.active;
        called = g.same;
      }),
  (λ m.
      Hit-find_index id 0 i ws m.watch m.at_slot m.active (omega (arith, m.called))
      ∙ ap (λ n. some n) (sym m.called)),
)
find_target_iff ws (by_name name) i d = (
  (λ h.
      let (k, w, p, q, r) = find_from-passes (named name) 0 ws i h in
      record {
        watch = w;
        at_slot = subst (λ j. get_elem? ws j ≡ some w) (omega arith) q;
        active = ground arith;
        called = (streq_iff (basename w.filename) name).0 (ground arith);
      }),
  (λ m.
      named-find_from name 0 i ws m.watch d m.at_slot m.active m.called
      ∙ ap (λ n. some n) (omega arith)),
)
