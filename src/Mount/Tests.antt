-- ===== src/Mount/Tests.antt =====
-- A wait in which the mountpoint shows up at the second change.
use kfmon.Prelude.{◌≡◌, refl, none, some, List, [], ◌∷◌, codes, streq, returns, exits, replicate}
use kfmon.Mount.{
  MountPoll, no_change, changed, available, is_target_mounted, any_target, wait_for_target,
  wait_for_target_mountpoint, target_mountpoint, max_changes,
}
use kfmon.Mount.Waiting.{verdict, end_of, changes_of, wait_for_target_mountpoint-verdict}

abbrev two_changes : List MountPoll
two_changes =
    changed (some (some (codes "/") ∷ none ∷ []))
    ∷ no_change
    ∷ changed (some (some (codes "/") ∷ some target_mountpoint ∷ []))
    ∷ []

second_change : wait_for_target_mountpoint two_changes ≡ returns available
unfolding wait_for_target_mountpoint wait_for_target is_target_mounted any_target streq
second_change = refl

six_without : wait_for_target_mountpoint (replicate 6 (changed none)) ≡ exits
unfolding wait_for_target_mountpoint wait_for_target is_target_mounted
six_without = refl

wait_for_target_mountpoint-verdict_example :
    wait_for_target_mountpoint two_changes
    ≡ verdict (end_of two_changes) max_changes (changes_of two_changes)
wait_for_target_mountpoint-verdict_example = wait_for_target_mountpoint-verdict two_changes
