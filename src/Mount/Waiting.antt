-- ===== src/Mount/Waiting.antt =====
-- What the wait for the mountpoint makes of the changes that it sees.
use kfmon.Prelude.{
  ℕ, zero, suc, ◌+◌, ◌≡◌, refl, List, [], ◌∷◌, arith, Bool-cases, inl, inr, if◌then◌else◌, leb,
  Outcome, returns, exits,
}
use kfmon.Mount.{
  Mounts, is_target_mounted, MountPoll, poll_failed, no_change, changed, Waited, available,
  given_up, still_waiting, max_changes, wait_for_target, wait_for_target_mountpoint,
}

-- The mounts after each change that is seen before poll fails, and whether it does.
abbrev pub changes_of : List MountPoll → List Mounts
changes_of [] = []
changes_of (poll_failed ∷ ps) = []
changes_of (no_change ∷ ps) = changes_of ps
changes_of (changed mounts ∷ ps) = mounts ∷ changes_of ps

abbrev pub end_of : List MountPoll → Waited
end_of [] = still_waiting
end_of (poll_failed ∷ ps) = given_up
end_of (no_change ∷ ps) = end_of ps
end_of (changed mounts ∷ ps) = end_of ps

-- With `n` chances left: the first of the changes that shows the target ends the wait, and the process
-- ends when there is no chance left.
abbrev pub verdict : Waited → ℕ → List Mounts → Outcome Waited
verdict otherwise zero ms = exits
verdict otherwise (suc n) [] = returns otherwise
verdict otherwise (suc n) (m ∷ ms) =
    let rest = verdict otherwise n ms in if is_target_mounted m then returns available else rest

wait_for_target-verdict :
    (n changes : ℕ) (ps : List MountPoll)
    → changes + suc n ≡ max_changes
    → wait_for_target changes ps ≡ verdict (end_of ps) (suc n) (changes_of ps)
unfolding wait_for_target
wait_for_target-verdict n changes [] h = refl
wait_for_target-verdict n changes (poll_failed ∷ ps) h = refl
wait_for_target-verdict n changes (no_change ∷ ps) h = elim (Bool-cases (leb max_changes changes)) [
  | inl e ↦ absurd (ground arith)
  | inr e ↦ rw e (wait_for_target-verdict n changes ps h)
]
wait_for_target-verdict zero changes (changed m ∷ ps) h = elim (Bool-cases (is_target_mounted m)) [
  | inl e ↦ rw e refl
  | inr e ↦ elim (Bool-cases (leb max_changes (suc changes))) [
    | inl f ↦ rw (e, f) refl
    | inr f ↦ absurd (ground arith)
  ]
]
wait_for_target-verdict (suc n) changes (changed m ∷ ps) h =
    elim (Bool-cases (is_target_mounted m)) [
      | inl e ↦ rw e refl
      | inr e ↦ elim (Bool-cases (leb max_changes (suc changes))) [
        | inl f ↦ absurd (ground arith)
        | inr f ↦ rw (e, f) (wait_for_target-verdict n (suc changes) ps (omega arith))
      ]
    ]

-- The wait ends well at the first change after which the target is mounted, if that is among the first
-- six, before poll fails; with six changes that do not show it the process exits; events that are no
-- change do not count.
pub wait_for_target_mountpoint-verdict :
    (ps : List MountPoll)
    → wait_for_target_mountpoint ps ≡ verdict (end_of ps) max_changes (changes_of ps)
unfolding wait_for_target_mountpoint
wait_for_target_mountpoint-verdict ps = wait_for_target-verdict 5 0 ps refl
