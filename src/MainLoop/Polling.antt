-- ===== src/MainLoop/Polling.antt =====
-- The daemon's state through the polling loop of the main loop.
use kfmon.Prelude.{
  ℕ, ◌≡◌, refl, Bool, Option, none, some, List, [], ◌∷◌, length-set, ◌∙◌, Outcome, returns, exits,
}
use kfmon.Process.Table.{ProcessTable, remove_process_from_table}
use kfmon.Process.Occupancy.{set-none-IsUnique, set-none-IsBelow}
use kfmon.Process.Spawn.{IsTable}
use kfmon.Config.{watch_max}
use kfmon.Events.{Daemon, Read, handle_events}
use kfmon.Events.Invariant.{IsDaemon, Ends, Ends->>=, handle_events-IsDaemon}
use kfmon.Ipc.Connection.{Accepted, Poll, Served, handle_connection, handle_connection-IsDaemon}
use kfmon.MainLoop.{
  release, Ready, interrupted, broken, ready, Turn, polling, left, serving, Polled, after_events,
  handle_input, after_client, handle_client, and_then, handle_ready, listen,
}

pub release-IsTable : (is : List ℕ) (pt : ProcessTable) → IsTable pt → IsTable (release is pt)
unfolding release remove_process_from_table
release-IsTable [] pt h = h
release-IsTable (i ∷ is) pt h = release-IsTable is (remove_process_from_table pt i) (record {
  pids_sized = length-set pt.spawn_pids i none ∙ h.pids_sized;
  ids_sized = length-set pt.spawn_watchids i none ∙ h.ids_sized;
  unique = set-none-IsUnique i pt.spawn_watchids h.unique;
  below = set-none-IsBelow watch_max i pt.spawn_watchids h.below;
})

-- What holds of every result.
returned {ℓ κ} :
    {A : Type ℓ} {P : A → Type κ} (o : Outcome A) → ((a : A) → o ≡ returns a → P a) → Ends P o
returned (returns a) k = k a refl
returned exits k = tt

abbrev pub IsPolled : Polled → Type 0
IsPolled p = IsDaemon p.0

handle_input-IsPolled :
    (o : Option (List Read)) (d : Daemon) → IsDaemon d → Ends IsPolled (handle_input o d)
unfolding handle_input
handle_input-IsPolled none d h = h
handle_input-IsPolled (some rs) d h =
    Ends->>= (λ (p : Daemon × Bool). IsDaemon p.0) IsPolled (handle_events rs d)
      (λ p. returns (after_events p))
      (returned (handle_events rs d) (λ p e. handle_events-IsDaemon rs d p.0 p.1 h e)) (λ p k. k)

handle_client-IsPolled :
    (o : Option (Accepted × List Poll)) (d : Daemon)
    → IsDaemon d
    → Ends IsPolled (handle_client o d)
unfolding handle_client
handle_client-IsPolled none d h = h
handle_client-IsPolled (some c) d h =
    Ends->>= (λ (s : Served). IsDaemon s.daemon) IsPolled (handle_connection c.0 d c.1)
      (λ s. returns (after_client s))
      (returned (handle_connection c.0 d c.1) (λ s e. handle_connection-IsDaemon c.0 d c.1 s h e))
      (λ s k. k)

and_then-IsPolled :
    (p : Polled) (rest : Daemon → Outcome Polled)
    → IsPolled p
    → ((d : Daemon) → IsDaemon d → Ends IsPolled (rest d))
    → Ends IsPolled (and_then p rest)
and_then-IsPolled (d, polling) rest h k = k d h
and_then-IsPolled (d, left) rest h k = h
and_then-IsPolled (d, serving) rest h k = h

handle_ready-IsPolled : (r : Ready) (d : Daemon) → IsDaemon d → Ends IsPolled (handle_ready r d)
unfolding handle_ready
handle_ready-IsPolled interrupted d h = h
handle_ready-IsPolled broken d h = tt
handle_ready-IsPolled (ready reads connection) d h =
    Ends->>= IsPolled IsPolled (handle_input reads d) (λ p. and_then p (handle_client connection))
      (handle_input-IsPolled reads d h)
      (λ p k. and_then-IsPolled p (handle_client connection) k (handle_client-IsPolled connection))

pub listen-IsPolled : (ts : List Turn) (d : Daemon) → IsDaemon d → Ends IsPolled (listen ts d)
unfolding listen
listen-IsPolled [] d h = h
listen-IsPolled (t ∷ ts) d h =
    let released = record d { table = release t.freed d.table } in
    Ends->>= IsPolled IsPolled (handle_ready t.poll released) (λ p. and_then p (listen ts))
      (handle_ready-IsPolled t.poll released
        (record { watches = h.watches; table = release-IsTable t.freed d.table h.table }))
      (λ p k. and_then-IsPolled p (listen ts) k (listen-IsPolled ts))
