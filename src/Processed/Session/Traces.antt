-- ===== src/Processed/Session/Traces.antt =====
-- The parts of is_target_processed follow the protocol.
use kfmon.Prelude.{
  ℕ, zero, suc, ◌≡◌, refl, ap, Bool, true, false, ◌||◌, Option, none, some, List, [], ◌∷◌, ◌++◌,
  CString, streq, streq_iff, if◌then◌else◌, replicate, arith,
}
use mathlib.Core.Path.{subst}
use kfmon.Config.{WatchConfig}
use kfmon.Processed.{book_path_of, max_sleeps, sleep_while}
use kfmon.Processed.Session.{
  Query, id, Call, prepare, bind_text, step, finalize, nap, close_db, Attempt, Replies, ask, naps,
  read_row, leave, ◌>>◌, call_sqlite, perform,
}
use kfmon.Processed.Session.Protocol.{
  Connection, unopened, idle, binding, stepped, same_query, parameters, may_step, move, follows,
  is_closed, is_update, updates, IsSound,
}

pub streq_self : (s : CString) → streq s s ≡ true
streq_self s = (streq_iff s s).1 refl

follows-naps :
    (w : WatchConfig) (b : Bool) (n : ℕ) (rest : List Call)
    → follows w (idle b) (replicate n nap ++ rest) ≡ follows w (idle b) rest
follows-naps w b zero rest = refl
follows-naps w b (suc n) rest = follows-naps w b n rest

updates-naps : (n : ℕ) (rest : List Call) → updates (replicate n nap ++ rest) ≡ updates rest
updates-naps zero rest = refl
updates-naps (suc n) rest = updates-naps n rest

pub leave-IsSound :
    (r : Replies) (w : WatchConfig) (waits : Bool) (journal : ℕ → Bool) (b v : Bool)
    → IsSound w (idle b) (leave r w waits journal v) (some v) false
unfolding leave naps
leave-IsSound r w waits journal b v =
    let n = sleep_while max_sleeps journal 0 in
    record {
      final = unopened;
      fits = ground (arith, follows-naps w b n (close_db ∷ []));
      closed = refl;
      told = refl;
      updated = ground (arith, updates-naps n (close_db ∷ []));
    }

-- What follows a call that fits.
module _ (w : WatchConfig) (c d : Connection) (call : Call) (m : move w c call ≡ some d) where
  pub call-IsSound :
      (ok v : Bool) (x : Option Bool) (u : Bool) (next : Attempt Bool)
      → (is_closed d ≡ false) × (is_update call ≡ false)
      → IsSound w d next x u
      → IsSound w c
          (call_sqlite v ok call >> next)
          (if ok then x else some v)
          (if ok then u else false)
  call-IsSound true v x u next n h = record {
    final = h.final;
    fits = rw (follows, m) h.fits;
    closed = h.closed;
    told = h.told;
    updated = rw n.1 h.updated;
  }
  call-IsSound false v x u next n h = record {
    final = d;
    fits = rw (follows, m) refl;
    closed = n.0;
    told = refl;
    updated = rw n.1 refl;
  }

  pub perform-IsSound :
      (x : Option Bool) (u : Bool) (next : Attempt Bool)
      → IsSound w d next x u
      → IsSound w c (perform call >> next) x (is_update call || u)
  perform-IsSound x u next h = record {
    final = h.final;
    fits = rw (follows, m) h.fits;
    closed = h.closed;
    told = h.told;
    updated = ap (λ (k : Bool). is_update call || k) h.updated;
  }

-- What a row that cannot be read leaves: the statement is not finalized.
read_row-IsSound :
    (w : WatchConfig) (b : Bool) (q : Query) (faults : Bool) (x : Option Bool) (u : Bool)
    (next : Attempt Bool)
    → IsSound w (stepped b q) next x u
    → IsSound w
        (stepped b q)
        (read_row faults >> next)
        (if faults then none else x)
        (if faults then false else u)
read_row-IsSound w b q false x u next h = record {
  final = h.final;
  fits = h.fits;
  closed = h.closed;
  told = h.told;
  updated = h.updated;
}
read_row-IsSound w b q true x u next h = record {
  final = stepped b q;
  fits = refl;
  closed = refl;
  told = refl;
  updated = refl;
}

-- A query that reads.
abbrev pub IsReading : Bool → Query → Type 0
IsReading b q =
    (parameters q ≡ id ∷ [])
    × (may_step b q ≡ true)
    × (same_query q q ≡ true)
    × (is_update (step q) ≡ false)

pub ask-IsSound :
    (r : Replies) (w : WatchConfig) (b v : Bool) (x : Option Bool) (u : Bool) (q : Query)
    (faults : Bool) (next : Attempt Bool)
    → IsReading b q
    → IsSound w (idle b) next x u
    → IsSound w
        (idle b)
        (ask r w v q faults next)
        (if r.prepared q
          then (if r.bound q id then (if faults then none else x) else some v)
          else some v)
        (if r.prepared q
          then (if r.bound q id then (if faults then false else u) else false)
          else false)
unfolding ask
ask-IsSound r w b v x u q faults next s h =
    let bind = binding b q (id ∷ []) in
    let bound = binding b q [] in
    let done = stepped b q in
    let finish = perform-IsSound w done (idle b) (finalize q) (rw s.2 refl) x u next h in
    let x1 = if faults then none else x in
    let u1 = if faults then false else u in
    let rest = read_row faults >> (perform (finalize q) >> next) in
    let read =
      read_row-IsSound w b q faults x u (perform (finalize q) >> next)
        (subst (λ (k : Bool). IsSound w done (perform (finalize q) >> next) x k) refl finish) in
    let run = perform-IsSound w bound done (step q) (rw (s.2, s.1) refl) x1 u1 rest read in
    let run1 =
      subst (λ (k : Bool). IsSound w bound (perform (step q) >> rest) x1 (k || u1)) s.3 run in
    call-IsSound w (idle b) bind (prepare q) (rw s.0 refl) (r.prepared q) v _ _ _ (refl, refl)
      (call-IsSound w bind bound (bind_text id (book_path_of w))
        (rw (streq_self (book_path_of w)) refl) (r.bound q id) v x1 u1 _ (refl, refl) run1)
