-- ===== src/Daemonize/Success.antt =====
-- What the process is when daemonize succeeds.
use kfmon.Prelude.{◌≡◌, sym, Bool, true, false, some, arith}
use mathlib.Core.Path.{subst}
use kfmon.Descriptors.{File, null, log_file, Descriptors, IsFull}
use kfmon.Daemonize.{
  Image, Fork, fork_failed, in_child, in_parent, Setup, Daemonized, ready, redirect_input,
  redirect_stderr, is_truncated, store_standard, redirect, settle, forked, detach, daemonize,
  quiet_stderr,
}
use kfmon.Daemonize.Streams.{
  get-redirect_stderr, get-redirect_input, redirect_stderr-IsFull, redirect_input-IsFull,
}
use kfmon.Daemonize.Copies.{Keeps, Keeps-change, is_open, store_standard-keeping, keeping-Keeps}

-- The image in which the copies are made, and the daemon's own after daemonize.
abbrev pub settled : Image → Image
settled p = store_standard (record p {
  session_leader = false;
  hangup_ignored = true;
  in_root = true;
  creation_mask = 0o22;
})

abbrev pub daemon : Setup → Image → Image
daemon s p = record (settled p) {
  fds = redirect_stderr (log_file (is_truncated s.log_status)) (redirect_input (settled p).fds);
}

redirect-ready :
    (s : Setup) (p q : Image)
    → redirect s p ≡ ready q
    → q ≡ record p {
      fds = redirect_stderr (log_file (is_truncated s.log_status)) (redirect_input p.fds);
    }
unfolding redirect
redirect-ready s p q e = ground arith

settle-ready :
    (s : Setup) (p q : Image)
    → settle s (record p { session_leader = false; hangup_ignored = true }) ≡ ready q
    → q ≡ daemon s p
unfolding settle
settle-ready s p q e = ground (arith, redirect-ready s (settled p) q)

forked-ready :
    (o : Fork) (p q : Image) (next : Image → Daemonized)
    → forked o p next ≡ ready q
    → next (record p { session_leader = false }) ≡ ready q
forked-ready fork_failed p q next e = absurd (ground arith)
forked-ready in_parent p q next e = absurd (ground arith)
forked-ready in_child p q next e = e

pub daemonize-ready : (s : Setup) (p q : Image) → daemonize s p ≡ ready q → q ≡ daemon s p
unfolding daemonize detach
daemonize-ready s p q e =
    let e1 = forked-ready s.first_fork p q (detach s) e in
    let e2 : forked s.final_fork (record p { session_leader = true; hangup_ignored = true })
          (settle s)
        ≡ ready q =
      ground arith in
    settle-ready s p q (forked-ready s.final_fork _ q (settle s) e2)

pub settled-Keeps : (p : Image) → IsFull 3 p.fds → Keeps p.fds (settled p)
settled-Keeps p full =
    let (f, ef) = is_open p.fds 0 (full 0 (omega arith)) in
    let (g, eg) = is_open p.fds 1 (full 1 (omega arith)) in
    let (h, eh) = is_open p.fds 2 (full 2 (omega arith)) in
    let p0 = record p {
      session_leader = false;
      hangup_ignored = true;
      in_root = true;
      creation_mask = 0o22;
    } in
    subst (Keeps p.fds) (sym (store_standard-keeping p0 f g h full ef eg eh))
      (keeping-Keeps p0 f g h full ef eg eh)

redirect_stderr-Keeps :
    (start : Descriptors) (f : File) (p : Image)
    → Keeps start p
    → Keeps start (record p { fds = redirect_stderr f p.fds })
redirect_stderr-Keeps start f p k =
    Keeps-change start p (redirect_stderr f p.fds) k (redirect_stderr-IsFull f p.fds k.full)
      (λ j j≥3. ground (arith, get-redirect_stderr f p.fds j k.full))

pub redirect_input-Keeps :
    (start : Descriptors) (p : Image)
    → Keeps start p
    → Keeps start (record p { fds = redirect_input p.fds })
redirect_input-Keeps start p k =
    Keeps-change start p (redirect_input p.fds) k (redirect_input-IsFull p.fds k.full)
      (λ j j≥3. ground (arith, get-redirect_input p.fds j k.full))

pub daemon-Keeps : (s : Setup) (p : Image) → IsFull 3 p.fds → Keeps p.fds (daemon s p)
daemon-Keeps s p full =
    let k = redirect_input-Keeps p.fds (settled p) (settled-Keeps p full) in
    redirect_stderr-Keeps p.fds (log_file (is_truncated s.log_status))
      (record (settled p) { fds = redirect_input (settled p).fds }) k

pub quiet_stderr-Keeps :
    (start : Descriptors) (use_syslog null_ok : Bool) (q r : Image)
    → quiet_stderr use_syslog null_ok q ≡ some r
    → Keeps start q
    → Keeps start r
unfolding quiet_stderr
quiet_stderr-Keeps start true true q r e k =
    let e1 : record q { fds = redirect_stderr null q.fds } ≡ r = ground arith in
    subst (Keeps start) e1 (redirect_stderr-Keeps start null q k)
quiet_stderr-Keeps start true false q r e k = absurd (ground arith)
quiet_stderr-Keeps start false null_ok q r e k =
    let e1 : q ≡ r = ground arith in subst (Keeps start) e1 k
