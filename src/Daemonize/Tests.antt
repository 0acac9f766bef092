-- ===== src/Daemonize/Tests.antt =====
-- Runs of daemonize and of a child of spawn.
use kfmon.Prelude.{ℕ, zero, suc, ◌≡◌, refl, true, false, none, some, [], ◌∷◌, arith}
use kfmon.Descriptors.{
  File, inherited, null, log_file, get, put, lowest, open_file, dup, dup2, close, IsFull,
}
use kfmon.Daemonize.{
  Image, in_child, in_parent, Setup, Daemonized, left, failed, ready, daemonize, quiet_stderr,
  spawn_child,
}
use kfmon.Daemonize.Restored.{IsDetached, daemonize-IsDetached, spawn_child-IsRestored}

-- Started with a gap at 3 and one more file open at 4.
abbrev started : Image
started = record {
  fds =
      some (inherited 0) ∷ some (inherited 1) ∷ some (inherited 2) ∷ none ∷ some (inherited 4) ∷ [];
  orig_stdin = none;
  orig_stdout = none;
  orig_stderr = none;
  hangup_ignored = false;
  session_leader = false;
  in_root = false;
  creation_mask = 0;
}

abbrev smooth : Setup
smooth = record {
  first_fork = in_child;
  setsid_ok = true;
  sigaction_ok = true;
  final_fork = in_child;
  chdir_ok = true;
  null_ok = true;
  log_status = some (true, 2000000);
  log_ok = true;
}

-- The daemon: copies at 3, 5 and 6.
abbrev detached : File → Image
detached f = record {
  fds =
      some null
      ∷ some null
      ∷ some f
      ∷ some (inherited 0)
      ∷ some (inherited 4)
      ∷ some (inherited 1)
      ∷ some (inherited 2)
      ∷ none
      ∷ [];
  orig_stdin = some 3;
  orig_stdout = some 5;
  orig_stderr = some 6;
  hangup_ignored = true;
  session_leader = false;
  in_root = true;
  creation_mask = 0o22;
}

runs : daemonize smooth started ≡ ready (detached (log_file true))
unfolding daemonize open_file dup dup2 close put lowest
runs = refl

silenced : quiet_stderr true true (detached (log_file true)) ≡ some (detached null)
unfolding quiet_stderr open_file dup2 close put lowest
silenced = refl

parent_leaves : daemonize (record smooth { final_fork = in_parent }) started ≡ left
unfolding daemonize
parent_leaves = refl

started-IsFull : IsFull 3 started.fds
started-IsFull zero h = ground arith
started-IsFull (suc zero) h = ground arith
started-IsFull (suc (suc zero)) h = ground arith
started-IsFull (suc (suc (suc k))) h = absurd (omega arith)

-- Without a stdin at the start, dup puts the copy of stdout in its place, where /dev/null follows: a
-- child's stdout is /dev/null.
abbrev no_stdin : Image
no_stdin = record started { fds = none ∷ some (inherited 1) ∷ some (inherited 2) ∷ [] }

abbrev image_of : Daemonized → Image
image_of left = started
image_of (failed p) = p
image_of (ready p) = p

stdout_lost : get (spawn_child (image_of (daemonize smooth no_stdin))).fds 1 ≡ some null
unfolding spawn_child daemonize open_file dup dup2 close put lowest
stdout_lost = refl

daemonize-IsDetached_example : IsDetached null (detached null)
daemonize-IsDetached_example =
    daemonize-IsDetached smooth true true started (detached (log_file true)) (detached null)
      started-IsFull runs silenced

spawn_child-IsRestored_example :
    ((j : ℕ) → get (spawn_child (detached null)).fds j ≡ get started.fds j)
    × ((spawn_child (detached null)).hangup_ignored ≡ false)
spawn_child-IsRestored_example =
    spawn_child-IsRestored smooth true true started (detached (log_file true)) (detached null)
      started-IsFull runs silenced
