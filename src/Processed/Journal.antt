-- ===== src/Processed/Journal.antt =====
-- The wait for the rollback journal ends.
use kfmon.Prelude.{
  ℕ, zero, suc, ◌+◌, ◌≤◌, ◌<◌, ◌≡◌, refl, Bool, true, false, arith, Bool-cases, inl, inr, leb, ◌==◌,
}
use mathlib.Core.Path.{subst}
use kfmon.Config.{WatchConfig}
use kfmon.Processed.{Database, max_sleeps, sleep_while, wait_for_journal, gets_to_wait}

-- `n` sleeps, from `count` on: the journal was there before each of them, and gone after the last one
-- unless the limit was reached.
pub record Slept (journal : ℕ → Bool) (count n : ℕ) : Type 0 where
  pub least : count ≤ n
  pub bound : n ≤ max_sleeps
  pub there : (k : ℕ) → count ≤ k → k < n → journal k ≡ true
  pub gone : n < max_sleeps → journal n ≡ false

sleep_while-Slept :
    (fuel : ℕ) (journal : ℕ → Bool) (count : ℕ)
    → count + fuel ≡ max_sleeps
    → Slept journal count (sleep_while fuel journal count)
unfolding sleep_while
sleep_while-Slept zero journal count h = record {
  least = omega arith;
  bound = omega arith;
  there = λ k p q. absurd (omega arith);
  gone = λ p. absurd (omega arith);
}
sleep_while-Slept (suc fuel) journal count h = elim (Bool-cases (journal count)) [
  | inr e ↦ rw e (record {
    least = omega arith;
    bound = omega arith;
    there = λ k p q. absurd (omega arith);
    gone = λ p. e;
  })
  | inl e ↦ elim (Bool-cases (leb max_sleeps (suc count))) [
    | inl f ↦
        rw (e, f)
          (record {
            least = omega arith;
            bound = omega arith;
            there = λ k p q. subst (λ j. journal j ≡ true) (omega arith) e;
            gone = λ p. absurd (ground arith);
          })
    | inr f ↦
        let r = sleep_while-Slept fuel journal (suc count) (omega arith) in
        rw (e, f)
          (record {
            least = omega (arith, r.least);
            bound = r.bound;
            there = λ k p q. elim (Bool-cases (count == k)) [
              | inl g ↦ subst (λ j. journal j ≡ true) (ground arith) e
              | inr g ↦ r.there k (ground arith) q
            ];
            gone = r.gone;
          })
  ]
]

-- On CLOSE, for what is processed, the wait for the rollback journal ends after at most 20 sleeps of half
-- a second: at the first look that does not find the journal, or at the limit.
pub wait_for_journal-Slept :
    (db : Database) (w : WatchConfig) (journal : ℕ → Bool)
    → gets_to_wait db w ≡ true
    → Slept journal 0 (wait_for_journal db w true journal)
unfolding wait_for_journal
wait_for_journal-Slept db w journal e = rw e (sleep_while-Slept 20 journal 0 refl)
