-- ===== src/Daemonize/Streams.antt =====
-- What daemonize's redirections make of the open files.
use kfmon.Prelude.{ℕ, ◌≤◌, ◌≡◌, ◌∙◌, true, none, some, if◌then◌else◌, ltb, leb, ◌==◌, arith}
use kfmon.Descriptors.{
  File, null, Descriptors, get, lowest, open_file, dup2, close, get-put, get-lowest, IsFull,
  lowest-IsFull, get-dup2, get-open_file,
}
use kfmon.Daemonize.{redirect_input, redirect_stderr}

-- Open descriptors stay open under the redirections, which change only their targets.
pub get-redirect_stderr :
    (f : File) (fs : Descriptors) (j : ℕ)
    → IsFull 6 fs
    → get (redirect_stderr f fs) j ≡ (if 2 == j then some f else get fs j)
unfolding redirect_stderr close
get-redirect_stderr f fs j h =
    let fd = lowest fs in
    let above : 6 ≤ fd = lowest-IsFull 6 fs h in
    let spare : ltb 5 fd ≡ true = ground arith in
    let opened = open_file fs f in
    let here : get opened fd ≡ some f = ground (arith, get-open_file fs f fd) in
    rw spare (
      get-put (dup2 opened (some fd) 2) fd j none
      ∙ ground (arith, get-dup2 opened fd 2 j f here, get-open_file fs f j, get-lowest fs))

pub get-redirect_input :
    (fs : Descriptors) (j : ℕ)
    → IsFull 6 fs
    → get (redirect_input fs) j ≡ (if leb 2 j then get fs j else some null)
unfolding redirect_input close
get-redirect_input fs j h =
    let fd = lowest fs in
    let above : 6 ≤ fd = lowest-IsFull 6 fs h in
    let spare : ltb 5 fd ≡ true = ground arith in
    let opened = open_file fs null in
    let here : get opened fd ≡ some null = ground (arith, get-open_file fs null fd) in
    let first = dup2 opened (some fd) 0 in
    let still : get first fd ≡ some null = ground (arith, get-dup2 opened fd 0 fd null here) in
    rw spare (
      get-put (dup2 first (some fd) 1) fd j none
      ∙ ground (
        arith,
        get-dup2 first fd 1 j null still,
        get-dup2 opened fd 0 j null here,
        get-open_file fs null j,
        get-lowest fs,
      ))

pub redirect_stderr-IsFull :
    (f : File) (fs : Descriptors) → IsFull 6 fs → IsFull 6 (redirect_stderr f fs)
redirect_stderr-IsFull f fs h k k<6 = rw (get-redirect_stderr f fs k h) (ground (arith, h k k<6))

pub redirect_input-IsFull : (fs : Descriptors) → IsFull 6 fs → IsFull 6 (redirect_input fs)
redirect_input-IsFull fs h k k<6 = rw (get-redirect_input fs k h) (ground (arith, h k k<6))
