-- ===== src/Processed/Session/Protocol.antt =====
-- How the calls of SQLite follow one another in is_target_processed: what each of them needs, and leaves.
use kfmon.Prelude.{
  ◌≡◌, Bool, true, false, ◌&&◌, ◌||◌, Option, none, some, List, [], ◌∷◌, CString, streq,
  if◌then◌else◌,
}
use kfmon.Config.{WatchConfig}
use kfmon.Processed.{book_path_of}
use kfmon.Processed.Session.{
  Query, select_exists, select_image_id, select_title, update_texts, Parameter, id, title, author,
  comment, Call, open_db, busy_timeout, prepare, bind_text, step, finalize, nap, close_db, Ended,
  fails, crashed, goes_on, Attempt, verdict_of,
}

-- The connection: none; open, for writing or not; with a statement whose parameters in the list are
-- still to be bound; with one that was run.
pub data Connection : Type 0 where
  unopened : Connection
  idle : Bool → Connection
  binding : Bool → Query → List Parameter → Connection
  stepped : Bool → Query → Connection

abbrev pub same_query : Query → Query → Bool
same_query select_exists select_exists = true
same_query select_image_id select_image_id = true
same_query select_title select_title = true
same_query update_texts update_texts = true
same_query p q = false

abbrev pub same_parameter : Parameter → Parameter → Bool
same_parameter id id = true
same_parameter title title = true
same_parameter author author = true
same_parameter comment comment = true
same_parameter p q = false

abbrev pub parameters : Query → List Parameter
parameters update_texts = title ∷ author ∷ comment ∷ id ∷ []
parameters select_exists = id ∷ []
parameters select_image_id = id ∷ []
parameters select_title = id ∷ []

-- What belongs into a parameter.
abbrev pub text_of : WatchConfig → Parameter → CString
text_of w id = book_path_of w
text_of w title = w.db_title
text_of w author = w.db_author
text_of w comment = w.db_comment

-- Only the UPDATE writes.
abbrev pub may_step : Bool → Query → Bool
may_step writable update_texts = writable
may_step writable select_exists = true
may_step writable select_image_id = true
may_step writable select_title = true

-- A call that fits the connection.
abbrev pub move : WatchConfig → Connection → Call → Option Connection
move w unopened (open_db writable) = some (idle writable)
move w (idle b) (busy_timeout n) = some (idle b)
move w (idle b) (prepare q) = some (binding b q (parameters q))
move w (idle b) nap = some (idle b)
move w (idle b) close_db = some unopened
move w (binding b q (p ∷ ps)) (bind_text p' t) =
    if same_parameter p p' && streq t (text_of w p) then some (binding b q ps) else none
move w (binding b q []) (step q') =
    if same_query q q' && may_step b q then some (stepped b q) else none
move w (stepped b q) (finalize q') = if same_query q q' then some (idle b) else none
move w c call = none

-- A sequence of calls, each of which fits what the ones before it left.
abbrev pub follows : WatchConfig → Connection → List Call → Option Connection
follows w c [] = some c
follows w c (call ∷ calls) = elim (move w c call) [ none ↦ none | some d ↦ follows w d calls ]

abbrev pub is_closed : Connection → Bool
is_closed unopened = true
is_closed (idle b) = false
is_closed (binding b q ps) = false
is_closed (stepped b q) = false

abbrev pub went_on {ℓ} : {A : Type ℓ} → Ended A → Bool
went_on (fails v) = false
went_on crashed = false
went_on (goes_on a) = true

abbrev pub is_update : Call → Bool
is_update (step update_texts) = true
is_update call = false

-- Whether the UPDATE is run.
abbrev pub updates : List Call → Bool
updates [] = false
updates (call ∷ calls) = is_update call || updates calls

-- The calls fit, the connection is closed at the end exactly if none of them failed and nothing crashed,
-- and this is what the caller is told, if it is, and whether the UPDATE was run.
pub record IsSound (w : WatchConfig) (c : Connection) (m : Attempt Bool) (verdict : Option Bool)
    (update : Bool) : Type 0 where
  pub final : Connection
  pub fits : follows w c m.calls ≡ some final
  pub closed : is_closed final ≡ went_on m.result
  pub told : verdict_of m.result ≡ verdict
  pub updated : updates m.calls ≡ update
