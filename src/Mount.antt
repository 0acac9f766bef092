-- ===== src/Mount.antt =====
-- is_target_mounted and wait_for_target_mountpoint of kfmon.c.
pub mod Waiting
pub mod Tests
use kfmon.Prelude.{
  ℕ, suc, Bool, true, false, Option, none, some, List, [], ◌∷◌, CString, codes, streq,
  if◌then◌else◌, leb, Outcome, returns, exits,
}

abbrev pub target_mountpoint : CString
target_mountpoint = codes "/mnt/onboard"

-- /proc/mounts as getmntent gives it, each entry with its `mnt_dir` (`none` for NULL); `none` if it
-- cannot be opened.
abbrev pub Mounts : Type 0
Mounts = Option (List (Option CString))

abbrev pub is_target : Option CString → Bool
is_target none = false
is_target (some dir) = streq dir target_mountpoint

unfoldable pub any_target : List (Option CString) → Bool
any_target [] = false
any_target (dir ∷ dirs) = let later = any_target dirs in if is_target dir then true else later

unfoldable pub is_target_mounted : Mounts → Bool
unfolding any_target
is_target_mounted none = false
is_target_mounted (some dirs) = any_target dirs

-- One return of poll on /proc/mounts: an error of the call, an event without POLLERR, or a change, with
-- what is mounted after it.
pub data MountPoll : Type 0 where
  poll_failed : MountPoll
  no_change : MountPoll
  changed : Mounts → MountPoll

-- How the wait ended: the target is there, poll failed, or (the end of the list) not yet.
pub data Waited : Type 0 where
  available given_up still_waiting : Waited

abbrev pub max_changes : ℕ
max_changes = 6

-- The polling loop, with `changes` so far.
unfoldable pub wait_for_target : ℕ → List MountPoll → Outcome Waited
wait_for_target changes [] = returns still_waiting
wait_for_target changes (poll_failed ∷ ps) = returns given_up
wait_for_target changes (no_change ∷ ps) =
    let rest = wait_for_target changes ps in if leb max_changes changes then exits else rest
wait_for_target changes (changed mounts ∷ ps) =
    let rest = wait_for_target (suc changes) ps in
    if is_target_mounted mounts
    then returns available
    else if leb max_changes (suc changes)
    then exits
    else rest

unfoldable pub wait_for_target_mountpoint : List MountPoll → Outcome Waited
unfolding wait_for_target
wait_for_target_mountpoint ps = wait_for_target 0 ps
