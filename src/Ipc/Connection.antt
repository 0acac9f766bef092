-- ===== src/Ipc/Connection.antt =====
-- handle_connection of kfmon.c: from the accepted client to the closed connection.
use kfmon.Prelude.{
  ℕ, suc, ◌+◌, ◌≤◌, ◌<◌, ◌≡◌, refl, Bool, true, false, List, [], ◌∷◌, ◌++◌, arith, Bool-cases, inl,
  inr, if◌then◌else◌, if_all, leb, Outcome, returns, exits, ◌>>=◌,
}
use mathlib.Core.Path.{subst}
use kfmon.Events.{Daemon}
use kfmon.Events.Invariant.{IsDaemon, Ends}
use kfmon.Ipc.{Answers, Packet, Received, Handled, handle_ipc}
use kfmon.Ipc.Invariant.{handle_ipc-IsDaemon}

-- One return of poll on the data socket: an interruption, another failure, no event for 15 s, a client
-- that is gone (POLLHUP), input, or an event that is neither.
pub data Poll : Type 0 where
  interrupted : Poll
  failed : Poll
  timed_out : Poll
  hung_up : Poll
  input : Received → Answers → Poll
  other : Poll

-- The daemon, what went out so far, and whether the connection was closed; if not, it waits for the
-- next return of poll.
pub record Served : Type 0 where
  pub daemon : Daemon
  pub packets : List Packet
  pub closed : Bool

abbrev pub max_retries : ℕ
max_retries = 4

abbrev pub close_now : Daemon → List Packet → Outcome Served
close_now d out = returns (record { daemon = d; packets = out; closed = true })

-- The end of an iteration: with too many timeouts the connection is dropped.
abbrev pub or_drop : ℕ → Daemon → List Packet → Outcome Served → Outcome Served
or_drop retry d out rest = if leb max_retries retry then close_now d out else rest

-- The polling loop, with `retry` timeouts so far.
unfoldable pub serve : ℕ → Daemon → List Packet → List Poll → Outcome Served
serve retry d out [] = returns (record { daemon = d; packets = out; closed = false })
serve retry d out (interrupted ∷ ps) = serve retry d out ps
serve retry d out (failed ∷ ps) = close_now d out
serve retry d out (hung_up ∷ ps) = close_now d out
serve retry d out (timed_out ∷ ps) = or_drop (suc retry) d out (serve (suc retry) d out ps)
serve retry d out (other ∷ ps) = or_drop retry d out (serve retry d out ps)
serve retry d out (input r a ∷ ps) = do
  x ← handle_ipc a d r
  let sent = out ++ x.sent.packets
  let rest = serve retry x.daemon sent ps
  if x.sent.closed then close_now x.daemon sent else or_drop retry x.daemon sent rest

-- What accept gives: it is retried on EINTR, a connection that went away is left (there is nothing to
-- close, which counts as closed), and any other error ends the process. Then the descriptor's flags are set and the peer's credentials read.
pub data Accepted : Type 0 where
  gone : Accepted
  broken : Accepted
  client : Bool → Accepted  -- whether all of fcntl and getsockopt succeeded

unfoldable pub handle_connection : Accepted → Daemon → List Poll → Outcome Served
unfolding serve
handle_connection gone d ps = close_now d []
handle_connection broken d ps = exits
handle_connection (client false) d ps = close_now d []
handle_connection (client true) d ps = serve 0 d [] ps

abbrev IsServed : Served → Type 0
IsServed s = IsDaemon s.daemon

serve-IsServed :
    (retry : ℕ) (d : Daemon) (out : List Packet) (ps : List Poll)
    → IsDaemon d
    → Ends IsServed (serve retry d out ps)
unfolding serve
serve-IsServed retry d out [] h = h
serve-IsServed retry d out (interrupted ∷ ps) h = serve-IsServed retry d out ps h
serve-IsServed retry d out (failed ∷ ps) h = h
serve-IsServed retry d out (hung_up ∷ ps) h = h
serve-IsServed retry d out (timed_out ∷ ps) h =
    if_all (Ends IsServed) (leb max_retries (suc retry)) h (serve-IsServed (suc retry) d out ps h)
serve-IsServed retry d out (other ∷ ps) h =
    if_all (Ends IsServed) (leb max_retries retry) h (serve-IsServed retry d out ps h)
serve-IsServed retry d out (input r a ∷ ps) h =
    go (handle_ipc a d r) refl (λ x. serve-IsServed retry x.daemon (out ++ x.sent.packets) ps)
  where
    go :
        (o : Outcome Handled)
        → handle_ipc a d r ≡ o
        → ((x : Handled)
            → IsDaemon x.daemon
            → Ends IsServed (serve retry x.daemon (out ++ x.sent.packets) ps))
        → Ends IsServed (
            o >>= λ x.
            let sent = out ++ x.sent.packets in
            let rest = serve retry x.daemon sent ps in
            if x.sent.closed then close_now x.daemon sent else or_drop retry x.daemon sent rest)
    go exits e k = tt
    go (returns x) e k =
        let hx = handle_ipc-IsDaemon a d r x h e in
        if_all (Ends IsServed) x.sent.closed hx
          (if_all (Ends IsServed) (leb max_retries retry) hx (k x hx))

-- If serving a client returns, a well-formed daemon is well-formed after it, whatever the client sent
-- and however the connection ended.
pub handle_connection-IsDaemon :
    (c : Accepted) (d : Daemon) (ps : List Poll) (s : Served)
    → IsDaemon d
    → handle_connection c d ps ≡ returns s
    → IsDaemon s.daemon
unfolding handle_connection
handle_connection-IsDaemon c d ps s h e = subst (Ends IsServed) e (all c)
  where
    all : (c : Accepted) → Ends IsServed (handle_connection c d ps)
    all gone = h
    all broken = tt
    all (client true) = serve-IsServed 0 d [] ps h
    all (client false) = h

-- How often poll timed out.
unfoldable pub timeouts : List Poll → ℕ
timeouts [] = 0
timeouts (timed_out ∷ ps) = suc (timeouts ps)
timeouts (p ∷ ps) = timeouts ps

abbrev IsClosed : Served → Type 0
IsClosed s = s.closed ≡ true

serve-IsClosed :
    (retry : ℕ) (d : Daemon) (out : List Packet) (ps : List Poll)
    → retry < max_retries
    → max_retries ≤ retry + timeouts ps
    → Ends IsClosed (serve retry d out ps)
unfolding serve timeouts
serve-IsClosed retry d out [] lt h = absurd (omega arith)
serve-IsClosed retry d out (interrupted ∷ ps) lt h = serve-IsClosed retry d out ps lt h
serve-IsClosed retry d out (failed ∷ ps) lt h = refl
serve-IsClosed retry d out (hung_up ∷ ps) lt h = refl
serve-IsClosed retry d out (timed_out ∷ ps) lt h = elim (Bool-cases (leb max_retries (suc retry))) [
  | inl e ↦ rw e refl
  | inr e ↦ rw e (serve-IsClosed (suc retry) d out ps (ground arith) (omega arith))
]
serve-IsClosed retry d out (other ∷ ps) lt h =
    if_all (Ends IsClosed) (leb max_retries retry) refl (serve-IsClosed retry d out ps lt h)
serve-IsClosed retry d out (input r a ∷ ps) lt h =
    go (handle_ipc a d r) (λ x. serve-IsClosed retry x.daemon (out ++ x.sent.packets) ps lt h)
  where
    go :
        (o : Outcome Handled)
        → ((x : Handled) → Ends IsClosed (serve retry x.daemon (out ++ x.sent.packets) ps))
        → Ends IsClosed (
            o >>= λ x.
            let sent = out ++ x.sent.packets in
            let rest = serve retry x.daemon sent ps in
            if x.sent.closed then close_now x.daemon sent else or_drop retry x.daemon sent rest)
    go exits k = tt
    go (returns x) k =
        if_all (Ends IsClosed) x.sent.closed refl
          (if_all (Ends IsClosed) (leb max_retries retry) refl (k x))

-- The fourth timeout of a connection at the latest closes it, also if the client has been active in
-- between: the count of timeouts is never reset.
pub handle_connection-IsClosed :
    (ok : Bool) (d : Daemon) (ps : List Poll) (s : Served)
    → max_retries ≤ timeouts ps
    → handle_connection (client ok) d ps ≡ returns s
    → s.closed ≡ true
unfolding handle_connection
handle_connection-IsClosed true d ps s h e =
    subst (Ends IsClosed) e (serve-IsClosed 0 d [] ps (omega arith) (omega arith))
handle_connection-IsClosed false d ps s h e = ground arith
