-- ===== src/Process/Blocker.antt =====
-- `is_blocker_running` of kfmon.c against what it means: some active watch that blocks spawns runs.
use kfmon.Prelude.{
  ℕ, suc, zero, ◌+◌, ◌≡◌, ◌↔◌, refl, true, not, none, some, List, [], ◌∷◌, Handle, arith, get_elem?,
  same_handle, ◌&&◌, Bool-cases, inl, inr,
}
use kfmon.Config.{WatchConfig}
use kfmon.Process.Table.{ProcessTable, holds, blocks, any_blocks, is_blocker_running}

-- Watch `w` is active, blocks spawns, and is among the running ones.
pub record RunningBlocker (ws : List WatchConfig) (ids : List Handle) (w : ℕ) : Type 0 where
  pub watch : WatchConfig
  pub at_slot : get_elem? ws w ≡ some watch
  pub active : watch.is_active ≡ true
  pub blocking : watch.block_spawns ≡ true
  pub running : holds w ids ≡ true

-- What the inner loop finds for one table entry.
record Blocking (ws : List WatchConfig) (id : Handle) (from k : ℕ) : Type 0 where
  watch : WatchConfig
  at_slot : get_elem? ws k ≡ some watch
  active : watch.is_active ≡ true
  blocking : watch.block_spawns ≡ true
  same : id ≡ some (from + k)

blocks-Blocking :
    (id : Handle) (from : ℕ) (ws : List WatchConfig)
    → blocks id from ws ≡ true
    → (k : ℕ) × Blocking ws id from k
unfolding blocks
blocks-Blocking id from [] h = absurd (ground arith)
blocks-Blocking id from (w ∷ ws) h =
    elim (Bool-cases (w.is_active && (same_handle id (some from) && w.block_spawns))) [
      | inl e ↦ (
        0,
        record {
          watch = w;
          at_slot = refl;
          active = ground arith;
          blocking = ground arith;
          same = ground arith;
        },
      )
      | inr e ↦
          let (k, b) = blocks-Blocking id (suc from) ws (ground arith) in
          (
            suc k,
            record {
              watch = b.watch;
              at_slot = b.at_slot;
              active = b.active;
              blocking = b.blocking;
              same = ground (arith, b.same);
            },
          )
    ]

Blocking-blocks :
    (id : Handle) (from k : ℕ) (ws : List WatchConfig)
    → Blocking ws id from k
    → blocks id from ws ≡ true
unfolding blocks
Blocking-blocks id from k [] b = absurd (ground (arith, b.at_slot))
Blocking-blocks id from zero (w ∷ ws) b = ground (arith, b.at_slot, b.active, b.blocking, b.same)
Blocking-blocks id from (suc k) (w ∷ ws) b =
    let later = Blocking-blocks id (suc from) k ws (record {
      watch = b.watch;
      at_slot = b.at_slot;
      active = b.active;
      blocking = b.blocking;
      same = ground (arith, b.same);
    }) in
    ground arith

any_blocks-RunningBlocker :
    (ws : List WatchConfig) (ids : List Handle)
    → any_blocks ws ids ≡ true
    → (w : ℕ) × RunningBlocker ws ids w
unfolding any_blocks holds
any_blocks-RunningBlocker ws [] h = absurd (ground arith)
any_blocks-RunningBlocker ws (id ∷ ids) h =
    elim (Bool-cases (not (same_handle id none) && blocks id 0 ws)) [
      | inl e ↦
          let (k, b) = blocks-Blocking id 0 ws (ground arith) in
          (
            k,
            record {
              watch = b.watch;
              at_slot = b.at_slot;
              active = b.active;
              blocking = b.blocking;
              running = ground (arith, b.same);
            },
          )
      | inr e ↦
          let (k, b) = any_blocks-RunningBlocker ws ids (ground arith) in
          (
            k,
            record {
              watch = b.watch;
              at_slot = b.at_slot;
              active = b.active;
              blocking = b.blocking;
              running = ground (arith, b.running);
            },
          )
    ]

RunningBlocker-any_blocks :
    (ws : List WatchConfig) (ids : List Handle) (w : ℕ)
    → RunningBlocker ws ids w
    → any_blocks ws ids ≡ true
unfolding any_blocks holds
RunningBlocker-any_blocks ws [] w b = absurd (ground (arith, b.running))
RunningBlocker-any_blocks ws (id ∷ ids) w b = elim (Bool-cases (same_handle id (some w))) [
  | inl e ↦
      let found = Blocking-blocks id 0 w ws (record {
        watch = b.watch;
        at_slot = b.at_slot;
        active = b.active;
        blocking = b.blocking;
        same = ground arith;
      }) in
      ground arith
  | inr e ↦
      let later = RunningBlocker-any_blocks ws ids w (record {
        watch = b.watch;
        at_slot = b.at_slot;
        active = b.active;
        blocking = b.blocking;
        running = ground (arith, b.running);
      }) in
      ground arith
]

-- `is_blocker_running` says true exactly when some watch is active, is flagged as a spawn blocker, and
-- has a process in the table.
pub is_blocker_running_iff :
    (pt : ProcessTable) (ws : List WatchConfig)
    → (is_blocker_running pt ws ≡ true) ↔ ((w : ℕ) × RunningBlocker ws pt.spawn_watchids w)
unfolding is_blocker_running
is_blocker_running_iff pt ws = (
  any_blocks-RunningBlocker ws pt.spawn_watchids,
  λ p. RunningBlocker-any_blocks ws pt.spawn_watchids p.0 p.1,
)
