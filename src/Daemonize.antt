-- ===== src/Daemonize.antt =====
-- How kfmon.c becomes a daemon, and how a child gets back what KFMon was started with: daemonize, the
-- switch to syslog in main, and the child's side of spawn.
pub mod Streams
pub mod Copies
pub mod Success
pub mod Restored
pub mod Tests
use kfmon.Prelude.{
  ℕ, Bool, true, false, ◌&&◌, Option, none, some, List, [], ◌∷◌, Handle, if◌then◌else◌, ltb,
}
use kfmon.Descriptors.{File, null, log_file, Descriptors, lowest, open_file, dup, dup2, close}

-- What daemonize and spawn change of a process. The `orig` descriptors are the globals of kfmon.h.
pub record Image : Type 0 where
  pub fds : Descriptors
  pub orig_stdin : Handle
  pub orig_stdout : Handle
  pub orig_stderr : Handle
  pub hangup_ignored : Bool
  pub session_leader : Bool
  pub in_root : Bool
  pub creation_mask : ℕ

-- The three returns of fork.
pub data Fork : Type 0 where
  fork_failed in_child in_parent : Fork

-- What the system answers to daemonize. `log_status` is what stat says of the log file, if it succeeds:
-- whether it is a regular file, and its size.
pub record Setup : Type 0 where
  pub first_fork : Fork
  pub setsid_ok : Bool
  pub sigaction_ok : Bool
  pub final_fork : Fork
  pub chdir_ok : Bool
  pub null_ok : Bool
  pub log_status : Option (Bool × ℕ)
  pub log_ok : Bool

-- `_exit(EXIT_SUCCESS)` in a parent, -1, or 0.
pub data Daemonized : Type 0 where
  left : Daemonized
  failed : Image → Daemonized
  ready : Image → Daemonized

-- A descriptor above those of the standard streams and their copies is closed after its use.
abbrev pub close_spare : Descriptors → ℕ → Descriptors
close_spare fs fd = if ltb 5 fd then close fs (some fd) else fs

-- stdin and stdout go to /dev/null, stderr to the log file (or to /dev/null).
unfoldable pub redirect_input : Descriptors → Descriptors
redirect_input fs =
    let fd = lowest fs in close_spare (dup2 (dup2 (open_file fs null) (some fd) 0) (some fd) 1) fd

unfoldable pub redirect_stderr : File → Descriptors → Descriptors
redirect_stderr f fs = let fd = lowest fs in close_spare (dup2 (open_file fs f) (some fd) 2) fd

-- O_TRUNC for a regular file of more than 1 MB.
unfoldable pub is_truncated : Option (Bool × ℕ) → Bool
is_truncated none = false
is_truncated (some (regular, size)) = regular && ltb 1048576 size

-- From the copies of the standard descriptors on.
unfoldable pub store_standard : Image → Image
store_standard p =
    let (fs1, a) = dup p.fds 0 in
    let (fs2, b) = dup fs1 1 in
    let (fs3, c) = dup fs2 2 in
    record p { fds = fs3; orig_stdin = a; orig_stdout = b; orig_stderr = c }

unfoldable pub redirect : Setup → Image → Daemonized
unfolding redirect_input redirect_stderr is_truncated
redirect s p =
    let p1 = record p { fds = redirect_input p.fds } in
    let p2 = record p1 { fds = redirect_stderr (log_file (is_truncated s.log_status)) p1.fds } in
    if s.null_ok then (if s.log_ok then ready p2 else failed p1) else failed p

-- From chdir on.
unfoldable pub settle : Setup → Image → Daemonized
unfolding redirect store_standard
settle s p =
    if s.chdir_ok
    then redirect s (store_standard (record p { in_root = true; creation_mask = 0o22 }))
    else failed p

-- A child of fork leads no session.
abbrev pub forked : Fork → Image → (Image → Daemonized) → Daemonized
forked fork_failed p next = failed p
forked in_parent p next = left
forked in_child p next = next (record p { session_leader = false })

-- From setsid on.
unfoldable pub detach : Setup → Image → Daemonized
unfolding settle
detach s p =
    let p1 = record p { session_leader = true } in
    let p2 = record p1 { hangup_ignored = true } in
    if s.setsid_ok
    then (if s.sigaction_ok then forked s.final_fork p2 (settle s) else failed p1)
    else failed p

unfoldable pub daemonize : Setup → Image → Daemonized
unfolding detach
daemonize s p = forked s.first_fork p (detach s)

-- With use_syslog: stderr goes to /dev/null too. `none` is exit(EXIT_FAILURE).
unfoldable pub quiet_stderr : Bool → Bool → Image → Option Image
unfolding redirect_stderr
quiet_stderr use_syslog null_ok p =
    if use_syslog
    then (if null_ok then some (record p { fds = redirect_stderr null p.fds }) else none)
    else some p

-- The child's side of spawn, up to execvp.
unfoldable pub spawn_child : Image → Image
spawn_child p =
    let fs1 = dup2 (dup2 (dup2 p.fds p.orig_stdin 0) p.orig_stdout 1) p.orig_stderr 2 in
    let fs2 = close (close (close fs1 p.orig_stdin) p.orig_stdout) p.orig_stderr in
    record p { fds = fs2; hangup_ignored = false }
