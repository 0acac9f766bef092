-- ===== src/Daemonize/Restored.antt =====
-- What the daemon has become once it runs, and what a child of it has open.
use kfmon.Prelude.{ℕ, ◌≡◌, refl, sym, ◌∙◌, Bool, true, false, some, if◌then◌else◌, arith}
use mathlib.Core.Path.{subst}
use kfmon.Descriptors.{File, null, log_file, get, IsFull}
use kfmon.Daemonize.{
  Image, Setup, ready, redirect_input, redirect_stderr, is_truncated, store_standard, daemonize,
  quiet_stderr, spawn_child,
}
use kfmon.Daemonize.Streams.{get-redirect_stderr, get-redirect_input}
use kfmon.Daemonize.Copies.{Keeps, spawn_child-Keeps}
use kfmon.Daemonize.Success.{
  settled, daemon, daemonize-ready, settled-Keeps, redirect_input-Keeps, daemon-Keeps,
  quiet_stderr-Keeps,
}

-- No session leader, SIGHUP ignored, in / with the mask 022, no input, no output but that file's.
abbrev pub IsDetached : File → Image → Type 0
IsDetached f p =
    (p.session_leader ≡ false)
    × (p.hangup_ignored ≡ true)
    × (p.in_root ≡ true)
    × (p.creation_mask ≡ 0o22)
    × (get p.fds 0 ≡ some null)
    × (get p.fds 1 ≡ some null)
    × (get p.fds 2 ≡ some f)

redirect_stderr-IsDetached :
    (f g : File) (p : Image)
    → IsFull 6 p.fds
    → IsDetached g p
    → IsDetached f (record p { fds = redirect_stderr f p.fds })
redirect_stderr-IsDetached f g p full d =
    let at = λ (j : ℕ). get-redirect_stderr f p.fds j full in
    (d.0, d.1, d.2, d.3, at 0 ∙ d.4, at 1 ∙ d.5, at 2)

daemon-IsDetached :
    (s : Setup) (p : Image)
    → IsFull 3 p.fds
    → IsDetached (log_file (is_truncated s.log_status)) (daemon s p)
unfolding store_standard
daemon-IsDetached s p full =
    let k = settled-Keeps p full in
    let k1 = redirect_input-Keeps p.fds (settled p) k in
    let below = λ (j : ℕ). get-redirect_input (settled p).fds j k.full in
    let at = λ (j : ℕ).
      get-redirect_stderr (log_file (is_truncated s.log_status)) (redirect_input (settled p).fds) j
        k1.full in
    (refl, refl, refl, refl, at 0 ∙ below 0, at 1 ∙ below 1, at 2)

quiet_stderr-IsDetached :
    (g : File) (use_syslog null_ok : Bool) (q r : Image)
    → IsFull 6 q.fds
    → IsDetached g q
    → quiet_stderr use_syslog null_ok q ≡ some r
    → IsDetached (if use_syslog then null else g) r
unfolding quiet_stderr
quiet_stderr-IsDetached g true true q r full d e =
    let e1 : record q { fds = redirect_stderr null q.fds } ≡ r = ground arith in
    subst (IsDetached null) e1 (redirect_stderr-IsDetached null g q full d)
quiet_stderr-IsDetached g true false q r full d e = absurd (ground arith)
quiet_stderr-IsDetached g false null_ok q r full d e =
    let e1 : q ≡ r = ground arith in subst (IsDetached g) e1 d

module _ (s : Setup) (use_syslog null_ok : Bool) (p q r : Image) (full : IsFull 3 p.fds)
    (done : daemonize s p ≡ ready q) (quiet : quiet_stderr use_syslog null_ok q ≡ some r) where
  -- Once daemonize has succeeded, over a start with open standard descriptors, and also after the
  -- switch to syslog: the daemon leads no session, ignores SIGHUP, runs in / with the mask 022, reads
  -- from and prints to /dev/null, and its stderr is the log file, or /dev/null with syslog.
  pub daemonize-IsDetached :
      IsDetached (if use_syslog then null else log_file (is_truncated s.log_status)) r
  daemonize-IsDetached =
      let log = log_file (is_truncated s.log_status) in
      let k = daemon-Keeps s p full in
      let e = daemonize-ready s p q done in
      quiet_stderr-IsDetached log use_syslog null_ok q r
        (subst (λ (x : Image). IsFull 6 x.fds) (sym e) k.full)
        (subst (IsDetached log) (sym e) (daemon-IsDetached s p full)) quiet

  -- Once daemonize has succeeded, over a start with open standard descriptors, and also after the
  -- switch to syslog, a child that spawn starts has open exactly what the daemon was started with, under
  -- the same descriptors, and does not ignore SIGHUP.
  pub spawn_child-IsRestored :
      ((j : ℕ) → get (spawn_child r).fds j ≡ get p.fds j) × ((spawn_child r).hangup_ignored ≡ false)
  unfolding spawn_child
  spawn_child-IsRestored =
      let k = subst (Keeps p.fds) (sym (daemonize-ready s p q done)) (daemon-Keeps s p full) in
      (
        spawn_child-Keeps p.fds r full (quiet_stderr-Keeps p.fds use_syslog null_ok q r quiet k),
        refl,
      )
