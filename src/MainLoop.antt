-- ===== src/MainLoop.antt =====
-- The main loop of main in kfmon.c: reloading the watches, setting up inotify, and serving events and
-- connections until a watch is destroyed.
pub mod Setup
pub mod Polling
pub mod Invariant
pub mod Tests
use kfmon.Prelude.{
  ℕ, suc, Bool, true, false, not, Option, none, some, List, [], ◌∷◌, CString, if◌then◌else◌, set,
  Outcome, returns, exits, ◌>>=◌,
}
use kfmon.Process.Table.{
  ProcessTable, init_process_table, remove_process_from_table, is_watch_already_spawned,
}
use kfmon.Config.{WatchConfig, zero_watch}
use kfmon.Config.Library.{Str5cpy, Inih}
use kfmon.Config.Load.{DirEntry, Load, unloaded, load_config}
use kfmon.Config.Update.{Visit, Updated, failed, overrun, updated, update_watch_configs}
use kfmon.Events.{Daemon, Read, handle_events}
use kfmon.Ipc.Connection.{Accepted, Poll, Served, handle_connection}
use kfmon.Mount.{
  Mounts, MountPoll, Waited, available, given_up, still_waiting, is_target_mounted,
  wait_for_target_mountpoint,
}

-- The entries that reaper threads release while the main thread is elsewhere.
unfoldable pub release : List ℕ → ProcessTable → ProcessTable
release [] pt = pt
release (i ∷ is) pt = release is (remove_process_from_table pt i)

-- What inotify_add_watch gives: a descriptor, ENOENT, or another error.
pub data Added : Type 0 where
  watching : ℕ → Added
  missing : Added
  refused : Added

-- A file that is missing leaves a watch for IPC only; another failure clears a watch that is not
-- running.
unfoldable pub setup_watch : Added → Bool → WatchConfig → WatchConfig
setup_watch (watching wd) spawned w = record w { inotify_wd = some wd }
setup_watch missing spawned w = record w { inotify_wd = none }
setup_watch refused spawned w = if spawned then record w { inotify_wd = none } else zero_watch

-- For each active watch: the answer, and the process table at that time.
pub record Adding : Type 0 where
  pub added : Added
  pub table : ProcessTable

unfoldable pub setup_from : (ℕ → Adding) → ℕ → List WatchConfig → List WatchConfig
setup_from adding i [] = []
setup_from adding i (w ∷ ws) =
    let a = adding i in
    (if w.is_active then setup_watch a.added (is_watch_already_spawned a.table i) w else w)
    ∷ setup_from adding (suc i) ws

unfoldable pub setup_watches : (ℕ → Adding) → List WatchConfig → List WatchConfig
setup_watches adding ws = setup_from adding 0 ws

-- One return of poll on the inotify descriptor and the socket: an interruption, a failure, or what is
-- to be read from either. `freed` are the entries released since the last one.
pub data Ready : Type 0 where
  interrupted : Ready
  broken : Ready
  ready : Option (List Read) → Option (Accepted × List Poll) → Ready

pub record Turn : Type 0 where
  pub freed : List ℕ
  pub poll : Ready

-- Where the polling loop is: it polls again, was left, or serves a client that has not gone yet.
pub data Position : Type 0 where
  polling left serving : Position

abbrev pub Polled : Type 0
Polled = Daemon × Position

abbrev pub after_events : Daemon × Bool → Polled
after_events p = (p.0, if p.1 then left else polling)

unfoldable pub handle_input : Option (List Read) → Daemon → Outcome Polled
handle_input none d = returns (d, polling)
handle_input (some rs) d = handle_events rs d >>= λ p. returns (after_events p)

abbrev pub after_client : Served → Polled
after_client s = (s.daemon, if s.closed then polling else serving)

unfoldable pub handle_client : Option (Accepted × List Poll) → Daemon → Outcome Polled
handle_client none d = returns (d, polling)
handle_client (some c) d = handle_connection c.0 d c.1 >>= λ s. returns (after_client s)

-- What follows unless the loop was left.
abbrev pub and_then : Polled → (Daemon → Outcome Polled) → Outcome Polled
and_then (d, polling) rest = rest d
and_then (d, left) rest = returns (d, left)
and_then (d, serving) rest = returns (d, serving)

unfoldable pub handle_ready : Ready → Daemon → Outcome Polled
unfolding handle_input handle_client
handle_ready interrupted d = returns (d, polling)
handle_ready broken d = exits
handle_ready (ready reads connection) d =
    handle_input reads d >>= λ p. and_then p (handle_client connection)

-- The polling loop; at the end of the list it waits.
unfoldable pub listen : List Turn → Daemon → Outcome Polled
unfolding handle_ready
listen [] d = returns (d, polling)
listen (t ∷ ts) d = handle_ready t.poll (record d { table = release t.freed d.table }) >>= λ p.
    and_then p (listen ts)

-- What the system answers during one iteration of the main loop.
pub record Session : Type 0 where
  pub mounts : Mounts
  pub mount_polls : List MountPoll
  pub walk : Option (List Visit)
  pub freed : List ℕ
  pub inotify_ok : Bool
  pub adding : ℕ → Adding
  pub turns : List Turn

-- How far the process has got: it waits for the mountpoint (before it has loaded its configuration, or
-- in the main loop), for events or for a client, it is at the end of an iteration, it exited, or it
-- wrote past the end of `new_watch_list`.
pub data Run : Type 0 where
  waiting_to_load : Run
  waiting_for_mount : Daemon → Run
  listening : Daemon → Run
  serving_client : Daemon → Run
  restarting : Daemon → Run
  exited : Run
  corrupted : Run

abbrev pub after_turns : Outcome Polled → Run
after_turns exits = exited
after_turns (returns (d, polling)) = listening d
after_turns (returns (d, left)) = restarting d
after_turns (returns (d, serving)) = serving_client d

-- From inotify_init1 on.
unfoldable pub serve_watches : Session → Daemon → Run
unfolding listen
serve_watches s d =
    let ready_d = record d { watches = setup_watches s.adding d.watches } in
    if s.inotify_ok then after_turns (listen s.turns ready_d) else exited

unfoldable pub after_update : Session → Daemon → Updated → Run
after_update s d failed = exited
after_update s d overrun = corrupted
after_update s d (updated u) =
    serve_watches s (record { watches = u.watches; table = release s.freed d.table })

module _ (str5cpy : Str5cpy) (inih : Inih) where
  unfoldable pub reload : Session → Daemon → Run
  unfolding after_update
  reload s d = after_update s d (update_watch_configs str5cpy inih s.walk d.watches)

  unfoldable pub after_mount : Session → Daemon → Outcome Waited → Run
  after_mount s d exits = exited
  after_mount s d (returns available) = reload s d
  after_mount s d (returns given_up) = reload s d
  after_mount s d (returns still_waiting) = waiting_for_mount d

  -- One iteration.
  unfoldable pub session : Session → Daemon → Run
  unfolding after_mount
  session s d =
      if is_target_mounted s.mounts
      then reload s d
      else after_mount s d (wait_for_target_mountpoint s.mount_polls)

  -- Iterations follow one another as long as they end.
  unfoldable pub main_loop : List Session → Run → Run
  main_loop [] r = r
  main_loop (s ∷ ss) (restarting d) = main_loop ss (session s d)
  main_loop (s ∷ ss) r = r

  -- The configuration is loaded, then the process table initialised. `prepared` is whether the rest of
  -- the preparations succeed.
  unfoldable pub startup : Load → Bool → Run
  startup l prepared =
      if l.sound
      then (if prepared
          then restarting (record { watches = l.watches; table = init_process_table })
          else exited)
      else exited

  unfoldable pub boot : Option (List DirEntry) → Bool → CString → Bool → List Session → Run
  unfolding startup main_loop
  boot walk user_present user_path prepared ss =
      main_loop ss
        (startup (load_config inih str5cpy walk user_present user_path unloaded) prepared)

  -- load_config first waits for the mountpoint.
  unfoldable pub after_first_mount : Run → Outcome Waited → Run
  after_first_mount booted exits = exited
  after_first_mount booted (returns available) = booted
  after_first_mount booted (returns given_up) = booted
  after_first_mount booted (returns still_waiting) = waiting_to_load

  unfoldable pub run :
      Mounts → List MountPoll → Option (List DirEntry) → Bool → CString → Bool → List Session → Run
  unfolding boot after_first_mount
  run mounts mount_polls walk user_present user_path prepared ss =
      let booted = boot walk user_present user_path prepared ss in
      if is_target_mounted mounts
      then booted
      else after_first_mount booted (wait_for_target_mountpoint mount_polls)
