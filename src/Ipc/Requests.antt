-- ===== src/Ipc/Requests.antt =====
-- When a client's request launches an action, and what it is told.
use kfmon.Prelude.{
  ℕ, ◌<◌, ◌≡◌, ◌≢◌, refl, ap, ◌∙◌, ◌⊎◌, Bool, true, false, not, ◌&&◌, some, [], ◌∷◌, ◌++◌, codes,
  CString, arith, Bool-cases, inl, inr, returns, >>=-eq-returns,
}
use mathlib.Core.Path.{subst}
use kfmon.Config.{watch_max, watch_at}
use kfmon.Process.Table.{ProcessTable, is_watch_already_spawned, is_blocker_running}
use kfmon.Process.Spawn.{spawn, IsTable, Launched, spawn-Launched}
use kfmon.Events.{Daemon}
use kfmon.Ipc.{
  Answers, Status, launched, unanswered, status_text, may_launch, refusal, launch_request,
}

-- A client may launch watch `i`: it has no process, and either nothing hinders a launch, or the
-- request is forced and the watch is itself no spawn blocker.
pub record Permitted (a : Answers) (force : Bool) (i : ℕ) (d : Daemon) : Type 0 where
  pub not_running : is_watch_already_spawned d.table i ≡ false
  pub cleared :
      ((force ≡ true) × ((watch_at d.watches i).block_spawns ≡ false))
      ⊎ ((is_blocker_running d.table d.watches ≡ false) × (a.inhibited ≡ false))

-- A line of text.
abbrev pub line : CString → CString
line text = text ++ 10 ∷ []

-- The request does not get past blockers and the BLOCK file.
abbrev pub IsHindered : Bool → ℕ → Daemon → Type 0
IsHindered force i d = (force ≡ false) ⊎ ((watch_at d.watches i).block_spawns ≡ true)

-- Why a request is denied, and the text that goes with it: the watch has a process already; or it has
-- none, and a spawn blocker runs; or there is no blocker either, and the BLOCK file is there.
pub record Running (i : ℕ) (d : Daemon) (text : CString) : Type 0 where
  pub has_process : is_watch_already_spawned d.table i ≡ true
  pub told : text ≡ line (codes "WARN_ALREADY_RUNNING")

pub record Blocked (force : Bool) (i : ℕ) (d : Daemon) (text : CString) : Type 0 where
  pub no_process : is_watch_already_spawned d.table i ≡ false
  pub hindered : IsHindered force i d
  pub blocker : is_blocker_running d.table d.watches ≡ true
  pub told : text ≡ line (codes "WARN_SPAWN_BLOCKED")

pub record Inhibited (a : Answers) (force : Bool) (i : ℕ) (d : Daemon) (text : CString)
    : Type 0 where
  pub no_process : is_watch_already_spawned d.table i ≡ false
  pub hindered : IsHindered force i d
  pub no_blocker : is_blocker_running d.table d.watches ≡ false
  pub inhibited : a.inhibited ≡ true
  pub told : text ≡ line (codes "WARN_SPAWN_INHIBITED")

abbrev pub Reason : Answers → Bool → ℕ → Daemon → CString → Type 0
Reason a force i d text = Running i d text ⊎ (Blocked force i d text ⊎ Inhibited a force i d text)

-- What a request leaves and answers.
pub record Granted (a : Answers) (force : Bool) (i : ℕ) (d d' : Daemon) (s : Status) : Type 0 where
  pub granted : Permitted a force i d
  pub by_spawn : spawn a.launch d.table i ≡ returns d'.table
  pub watches_kept : d'.watches ≡ d.watches
  pub answer : s ≡ launched
  pub told : status_text s ≡ line (codes "OK")

pub record Refused (a : Answers) (force : Bool) (i : ℕ) (d d' : Daemon) (s : Status) : Type 0 where
  pub unchanged : d' ≡ d
  pub denied : ¬ (Permitted a force i d)
  pub answered : s ≢ unanswered
  pub not_launched : s ≢ launched
  pub reason : Reason a force i d (status_text s)

launched_text : status_text launched ≡ line (codes "OK")
unfolding status_text
launched_text = refl

module _ (a : Answers) (force : Bool) (i : ℕ) (d : Daemon) where
  abbrev forced : Bool
  forced = force && not (watch_at d.watches i).block_spawns

  abbrev test : Bool
  test =
      may_launch forced (is_watch_already_spawned d.table i) (is_blocker_running d.table d.watches)
        a.inhibited

  test-Permitted : test ≡ true → Permitted a force i d
  unfolding may_launch
  test-Permitted h = record { not_running = ground arith; cleared = ground arith }

  Permitted-test : Permitted a force i d → test ≡ true
  unfolding may_launch
  Permitted-test p = ground (arith, p.not_running, p.cleared)

  refusal-answers :
      test ≡ false
      → (refusal forced
            (is_watch_already_spawned d.table i)
            (is_blocker_running d.table d.watches)
            a.inhibited
          ≢ unanswered)
        × (refusal forced
              (is_watch_already_spawned d.table i)
              (is_blocker_running d.table d.watches)
              a.inhibited
            ≢ launched)
  unfolding may_launch refusal
  refusal-answers h = ground arith

  abbrev refused : Status
  refused =
      refusal forced (is_watch_already_spawned d.table i) (is_blocker_running d.table d.watches)
        a.inhibited

  forced-IsHindered : forced ≡ false → IsHindered force i d
  forced-IsHindered h = ground arith

  test-not_forced : test ≡ false → is_watch_already_spawned d.table i ≡ false → forced ≡ false
  unfolding may_launch
  test-not_forced h e = ground arith

  test-not_blocked :
      test ≡ false
      → is_watch_already_spawned d.table i ≡ false
      → is_blocker_running d.table d.watches ≡ false
      → a.inhibited ≡ true
  unfolding may_launch
  test-not_blocked h e f = ground arith

  refused-Reason : test ≡ false → Reason a force i d (status_text refused)
  unfolding refusal status_text
  refused-Reason h = elim (Bool-cases (is_watch_already_spawned d.table i)) [
    | inl e ↦ inl (record { has_process = e; told = rw e refl })
    | inr e ↦
        let f = test-not_forced h e in
        elim (Bool-cases (is_blocker_running d.table d.watches)) [
          | inl b ↦ inr (
              inl (record {
                no_process = e;
                hindered = forced-IsHindered f;
                blocker = b;
                told = rw (e, f, b) refl;
              }))
          | inr b ↦
              let n = test-not_blocked h e b in
              inr (
                inr (record {
                  no_process = e;
                  hindered = forced-IsHindered f;
                  no_blocker = b;
                  inhibited = n;
                  told = rw (e, f, b, n) refl;
                }))
        ]
  ]

-- The answer to a request for an active watch: it launches the watch and says OK exactly when the watch
-- has no process and either no blocker runs and the BLOCK file is absent, or the request is forced and
-- the watch is itself no spawn blocker. Otherwise nothing changes, and the text of the answer says why:
-- WARN_ALREADY_RUNNING if the watch has a process, else WARN_SPAWN_BLOCKED if a blocker runs, else
-- WARN_SPAWN_INHIBITED for the BLOCK file, and the last two only if the request is not forced or the
-- watch is a spawn blocker.
pub launch_request-answers :
    (a : Answers) (force : Bool) (i : ℕ) (d d' : Daemon) (s : Status)
    → launch_request a force i d ≡ returns (d', s)
    → Granted a force i d d' s ⊎ Refused a force i d d' s
unfolding launch_request
launch_request-answers a force i d d' s h = elim (Bool-cases (test a force i d)) [
  | inl e ↦
      let (t, f, g) =
        >>=-eq-returns (spawn a.launch d.table i)
          (λ table. returns (record d { table = table }, launched)) (rw e at h) in
      let answer : s ≡ launched = ground (arith, g) in
      inl (record {
        granted = test-Permitted a force i d e;
        by_spawn = ground (arith, f, g);
        watches_kept = ground (arith, g);
        answer = answer;
        told = ap status_text answer ∙ launched_text;
      })
  | inr e ↦
      let (p, q) = refusal-answers a force i d e in
      let g = rw e at h in
      let same : refused a force i d ≡ s = ground (arith, g) in
      inr (record {
        unchanged = ground (arith, g);
        denied = λ x. ground (arith, e, Permitted-test a force i d x);
        answered = λ x. p (same ∙ x);
        not_launched = λ x. q (same ∙ x);
        reason =
            subst (λ (x : Status). Reason a force i d (status_text x)) same
              (refused-Reason a force i d e);
      })
]

-- A permitted request for a watch, when fork and thread succeed, does launch it: the watch has the
-- child's pid in the process table, which stays well-formed, and the client is told so.
pub launch_request-launches :
    (a : Answers) (force : Bool) (i pid : ℕ) (d : Daemon)
    → IsTable d.table
    → i < watch_max
    → Permitted a force i d
    → a.launch ≡ record { fork_pid = some pid; thread_ok = true }
    → (t : ProcessTable) × (launch_request a force i d ≡ returns (record d { table = t }, launched))
      × Launched d.table i pid t
unfolding launch_request
launch_request-launches a force i pid d v lt p l =
    let (t, e, q) = spawn-Launched d.table i pid v lt p.not_running in
    (t, rw (Permitted-test a force i d p, l, e), q)

-- A request for a watch is answered if fork and thread succeed.
pub launch_request_total :
    (a : Answers) (force : Bool) (i pid : ℕ) (d : Daemon)
    → IsTable d.table
    → i < watch_max
    → a.launch ≡ record { fork_pid = some pid; thread_ok = true }
    → (r : Daemon × Status) × (launch_request a force i d ≡ returns r)
unfolding launch_request
launch_request_total a force i pid d v lt l = elim (Bool-cases (test a force i d)) [
  | inl e ↦
      let (t, f, q) =
        launch_request-launches a force i pid d v lt (test-Permitted a force i d e) l in
      ((record d { table = t }, launched), f)
  | inr e ↦ (
    (
      d,
      refusal (forced a force i d) (is_watch_already_spawned d.table i)
          (is_blocker_running d.table d.watches) a.inhibited,
    ),
    rw e,
  )
]
