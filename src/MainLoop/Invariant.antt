-- ===== src/MainLoop/Invariant.antt =====
-- The daemon's state from startup on, through every iteration of the main loop.
use kfmon.Prelude.{
  ◌≤◌, ◌≡◌, ◌≢◌, refl, Bool, Option, none, some, List, [], ◌∷◌, CString, arith, if_all, All,
  Outcome, returns, exits,
}
use kfmon.Process.Spawn.{init_process_table-IsTable}
use kfmon.Config.{WatchConfig, watch_max}
use kfmon.Config.Library.{Str5cpy, Str5Laws, Inih}
use kfmon.MainLoop.Setup.{setup_watches-WellFormed}
use kfmon.Config.Load.{DirEntry, Load}
use kfmon.Config.Load.Startup.{Loaded, load_config-Loaded}
use kfmon.Config.Update.{Visit, Updated, failed, overrun, updated, update_watch_configs}
use kfmon.Config.Update.Invariant.{update_watch_configs-WellFormed}
use kfmon.Config.Update.Overrun.{count_files, update_watch_configs_total}
use kfmon.Events.{Daemon}
use kfmon.Events.Invariant.{IsDaemon, Ends}
use kfmon.Mount.{
  Mounts, MountPoll, available, given_up, still_waiting, Waited, is_target_mounted,
  wait_for_target_mountpoint,
}
use kfmon.MainLoop.{
  setup_watches, polling, left, serving, Polled, listen, Session, Run, waiting_to_load, boot,
  after_first_mount, waiting_for_mount, listening, serving_client, restarting, exited, corrupted,
  after_turns, serve_watches, after_update, reload, after_mount, session, main_loop, startup, run,
}
use kfmon.MainLoop.Polling.{release-IsTable, IsPolled, listen-IsPolled}

-- Nothing was written past new_watch_list, and if the process still runs, its state is well-formed.
abbrev pub IsRunning : Run → Type 0
IsRunning (waiting_for_mount d) = IsDaemon d
IsRunning (listening d) = IsDaemon d
IsRunning (serving_client d) = IsDaemon d
IsRunning (restarting d) = IsDaemon d
IsRunning waiting_to_load = Unit
IsRunning exited = Unit
IsRunning corrupted = ⊥

after_turns-IsRunning : (o : Outcome Polled) → Ends IsPolled o → IsRunning (after_turns o)
after_turns-IsRunning exits h = tt
after_turns-IsRunning (returns (d, polling)) h = h
after_turns-IsRunning (returns (d, left)) h = h
after_turns-IsRunning (returns (d, serving)) h = h

serve_watches-IsRunning : (s : Session) (d : Daemon) → IsDaemon d → IsRunning (serve_watches s d)
unfolding serve_watches
serve_watches-IsRunning s d h =
    let ready_d = record d { watches = setup_watches s.adding d.watches } in
    if_all IsRunning s.inotify_ok
      (after_turns-IsRunning (listen s.turns ready_d) (
        listen-IsPolled s.turns ready_d (record {
          watches = setup_watches-WellFormed s.adding d.watches h.watches;
          table = h.table;
        })))
      tt

-- The directory holds at most WATCH_MAX files of watches when it is walked.
abbrev pub IsBounded : Option (List Visit) → Type 0
IsBounded none = Unit
IsBounded (some vs) = count_files vs ≤ watch_max

module _ (str5cpy : Str5cpy) (laws : Str5Laws str5cpy) (inih : Inih) where
  after_update-IsRunning :
      (s : Session) (d : Daemon) (r : Updated)
      → IsDaemon d
      → r ≢ overrun
      → update_watch_configs str5cpy inih s.walk d.watches ≡ r
      → IsRunning (after_update s d r)
  unfolding after_update
  after_update-IsRunning s d failed h n e = tt
  after_update-IsRunning s d overrun h n e = n refl
  after_update-IsRunning s d (updated u) h n e = serve_watches-IsRunning s _ (record {
    watches = (update_watch_configs-WellFormed str5cpy laws inih s.walk d.watches u h.watches e).0;
    table = release-IsTable s.freed d.table h.table;
  })

  no_overrun :
      (walk : Option (List Visit)) (ws : List WatchConfig)
      → IsBounded walk
      → update_watch_configs str5cpy inih walk ws ≢ overrun
  unfolding update_watch_configs
  no_overrun none ws b e = ground arith
  no_overrun (some vs) ws b e =
      let (u, f) = update_watch_configs_total str5cpy inih vs ws b in ground (arith, e, f)

  reload-IsRunning :
      (s : Session) (d : Daemon)
      → IsBounded s.walk
      → IsDaemon d
      → IsRunning (reload str5cpy inih s d)
  unfolding reload
  reload-IsRunning s d b h =
      after_update-IsRunning s d (update_watch_configs str5cpy inih s.walk d.watches) h
        (no_overrun s.walk d.watches b) refl

  after_mount-IsRunning :
      (s : Session) (d : Daemon) (o : Outcome Waited)
      → IsBounded s.walk
      → IsDaemon d
      → IsRunning (after_mount str5cpy inih s d o)
  unfolding after_mount
  after_mount-IsRunning s d exits b h = tt
  after_mount-IsRunning s d (returns available) b h = reload-IsRunning s d b h
  after_mount-IsRunning s d (returns given_up) b h = reload-IsRunning s d b h
  after_mount-IsRunning s d (returns still_waiting) b h = h

  session-IsRunning :
      (s : Session) (d : Daemon)
      → IsBounded s.walk
      → IsDaemon d
      → IsRunning (session str5cpy inih s d)
  unfolding session
  session-IsRunning s d b h =
      if_all IsRunning (is_target_mounted s.mounts) (reload-IsRunning s d b h)
        (after_mount-IsRunning s d (wait_for_target_mountpoint s.mount_polls) b h)

  main_loop-IsRunning :
      (ss : List Session) (r : Run)
      → All (λ (s : Session). IsBounded s.walk) ss
      → IsRunning r
      → IsRunning (main_loop str5cpy inih ss r)
  unfolding main_loop
  main_loop-IsRunning [] r b h = h
  main_loop-IsRunning (s ∷ ss) (restarting d) b h =
      main_loop-IsRunning ss (session str5cpy inih s d) b.1 (session-IsRunning s d b.0 h)
  main_loop-IsRunning (s ∷ ss) (waiting_for_mount d) b h = h
  main_loop-IsRunning (s ∷ ss) (listening d) b h = h
  main_loop-IsRunning (s ∷ ss) (serving_client d) b h = h
  main_loop-IsRunning (s ∷ ss) exited b h = tt
  main_loop-IsRunning (s ∷ ss) waiting_to_load b h = tt
  main_loop-IsRunning (s ∷ ss) corrupted b h = h

  startup-IsRunning :
      (l : Load) (prepared : Bool) → Loaded l → IsRunning (startup str5cpy inih l prepared)
  unfolding startup
  startup-IsRunning l prepared h =
      if_all IsRunning l.sound
        (if_all IsRunning prepared
          (record { watches = h.formed; table = init_process_table-IsTable }) tt)
        tt

  boot-IsRunning :
      (walk : Option (List DirEntry)) (user_present : Bool) (user_path : CString) (prepared : Bool)
      (ss : List Session)
      → All (λ (s : Session). IsBounded s.walk) ss
      → IsRunning (boot str5cpy inih walk user_present user_path prepared ss)
  unfolding boot
  boot-IsRunning walk user_present user_path prepared ss b = main_loop-IsRunning ss _ b (
      startup-IsRunning _ prepared
        (load_config-Loaded inih str5cpy laws walk user_present user_path))

  after_first_mount-IsRunning :
      (booted : Run) (o : Outcome Waited)
      → IsRunning booted
      → IsRunning (after_first_mount str5cpy inih booted o)
  unfolding after_first_mount
  after_first_mount-IsRunning booted exits h = tt
  after_first_mount-IsRunning booted (returns available) h = h
  after_first_mount-IsRunning booted (returns given_up) h = h
  after_first_mount-IsRunning booted (returns still_waiting) h = tt

  -- From startup on, as long as the configuration directory never holds more than WATCH_MAX files of
  -- watches when it is walked: whatever the configuration, the inotify events, the clients' messages,
  -- the launches and reapers, the mounts and the failures are, the process never writes past
  -- new_watch_list, and wherever it has got to once its configuration is loaded, it has ended or its
  -- watches and its process table are well-formed.
  pub run-IsRunning :
      (mounts : Mounts) (mount_polls : List MountPoll) (walk : Option (List DirEntry))
      (user_present : Bool) (user_path : CString) (prepared : Bool) (ss : List Session)
      → All (λ (s : Session). IsBounded s.walk) ss
      → IsRunning (run str5cpy inih mounts mount_polls walk user_present user_path prepared ss)
  unfolding run
  run-IsRunning mounts mount_polls walk user_present user_path prepared ss b =
      let booted = boot-IsRunning walk user_present user_path prepared ss b in
      if_all IsRunning (is_target_mounted mounts) booted
        (after_first_mount-IsRunning _ (wait_for_target_mountpoint mount_polls) booted)
