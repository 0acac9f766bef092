-- ===== src/Processed/Session/Verdicts.antt =====
-- The calls of is_target_processed as a whole.
use kfmon.Prelude.{
  ℕ, ◌*◌, ◌≡◌, ◌∙◌, refl, sym, Bool, true, false, ◌&&◌, Option, none, some, [], ◌∷◌, CString,
  if◌then◌else◌, arith, Bool-cases, inl, inr,
}
use mathlib.Core.Path.{subst}
use kfmon.Config.{WatchConfig, DaemonConfig}
use kfmon.Processed.{
  book_path_of, check_image_row, is_null_title, is_one, is_stale, is_target_processed, sends_update,
  crashes, answer_of, check_image, has_thumbnails,
}
use kfmon.Processed.Session.{
  select_exists, select_image_id, select_title, update_texts, id, title, author, comment, open_db,
  busy_timeout, prepare, bind_text, step, finalize, Attempt, Replies, ask, update_row, leave,
  from_update, from_title, from_image, attempt, ◌>>◌, perform, summary,
}
use kfmon.Processed.Session.Protocol.{
  Connection, unopened, idle, binding, stepped, parameters, IsSound,
}
use kfmon.Processed.Session.Traces.{
  streq_self, leave-IsSound, call-IsSound, perform-IsSound, ask-IsSound,
}

-- The verdict and the update said otherwise.
said :
    (w : WatchConfig) (c : Connection) (m : Attempt Bool) (v : Option Bool) (u : Bool)
    (v' : Option Bool) (u' : Bool)
    → v ≡ v'
    → u ≡ u'
    → IsSound w c m v u
    → IsSound w c m v' u'
said w c m v u v' u' e f h = record {
  final = h.final;
  fits = h.fits;
  closed = h.closed;
  told = h.told ∙ e;
  updated = h.updated ∙ f;
}

update_row-IsSound :
    (r : Replies) (w : WatchConfig) (u : Bool) (next : Attempt Bool)
    → IsSound w (idle true) next (some true) u
    → IsSound w (idle true) (update_row r w next) (some true) (summary r).update_ok
unfolding update_row
update_row-IsSound r w u next h =
    let q = update_texts in
    let at = binding true q in
    let finish =
      perform-IsSound w (stepped true q) (idle true) (finalize q) refl (some true) u next h in
    let run =
      perform-IsSound w (at []) (stepped true q) (step q) refl (some true) u
        (perform (finalize q) >> next) finish in
    said w (idle true) (update_row r w next) _ _ (some true) (summary r).update_ok (ground arith)
      (ground arith)
      (call-IsSound w (idle true) (at (parameters q)) (prepare q) refl (r.prepared q) true _ _ _
        (refl, refl)
        (call-IsSound w (at (title ∷ author ∷ comment ∷ id ∷ [])) (at (author ∷ comment ∷ id ∷ []))
          (bind_text title w.db_title) (rw (streq_self w.db_title) refl) (r.bound q title) true _ _
          _ (refl, refl)
          (call-IsSound w (at (author ∷ comment ∷ id ∷ [])) (at (comment ∷ id ∷ []))
            (bind_text author w.db_author) (rw (streq_self w.db_author) refl) (r.bound q author)
            true _ _ _ (refl, refl)
            (call-IsSound w (at (comment ∷ id ∷ [])) (at (id ∷ [])) (bind_text comment w.db_comment)
              (rw (streq_self w.db_comment) refl) (r.bound q comment) true _ _ _ (refl, refl)
              (call-IsSound w (at (id ∷ [])) (at []) (bind_text id (book_path_of w))
                (rw (streq_self (book_path_of w)) refl) (r.bound q id) true _ _ _ (refl, refl)
                run)))))

from_update-IsSound :
    (r : Replies) (w : WatchConfig) (waits : Bool) (journal : ℕ → Bool) (needs : Bool)
    → IsSound w
        (idle true)
        (from_update r w waits journal needs)
        (some true)
        (needs && (summary r).update_ok)
unfolding from_update
from_update-IsSound r w waits journal true =
    update_row-IsSound r w false (leave r w waits journal true)
      (leave-IsSound r w waits journal true true)
from_update-IsSound r w waits journal false = leave-IsSound r w waits journal true true

-- Whether the UPDATE is run for what counts as processed, or not.
abbrev written : Replies → WatchConfig → Bool → Bool
written r w is_processed =
    if is_processed && w.do_db_update
    then (if (summary r).title_ok
        then is_stale w r.db.title_row && (summary r).update_ok
        else false)
    else false

-- What the caller gets.
abbrev told_by : Replies → WatchConfig → Bool → Option Bool
told_by r w is_processed =
    if (is_processed && w.do_db_update) && ((summary r).title_ok && is_null_title r.db.title_row)
    then none
    else some is_processed

-- A NULL asks for no update.
null-not_stale :
    (w : WatchConfig) (o : Option (Option CString)) (u : Bool)
    → (if is_null_title o then false else is_stale w o && u) ≡ (is_stale w o && u)
null-not_stale w none u = refl
null-not_stale w (some none) u = refl
null-not_stale w (some (some t)) u = refl

from_title-IsSound :
    (r : Replies) (w : WatchConfig) (waits : Bool) (journal : ℕ → Bool) (v : Bool)
    → IsSound w
        (idle w.do_db_update)
        (from_title r w waits journal v)
        (told_by r w v)
        (written r w v)
unfolding from_title
from_title-IsSound r w waits journal v = elim (Bool-cases (v && w.do_db_update)) [
  | inl e ↦
      let stale = is_stale w r.db.title_row in
      let null = is_null_title r.db.title_row in
      let v-true : v ≡ true = ground arith in
      let writes : w.do_db_update ≡ true = ground arith in
      let next = from_update r w waits journal stale in
      let asked_for = if (summary r).title_ok then stale && (summary r).update_ok else false in
      let told = if (summary r).title_ok && null then none else some true in
      let asked =
        ask-IsSound r w true true (some true) (stale && (summary r).update_ok) select_title null
          next (refl, refl, refl, refl) (from_update-IsSound r w waits journal stale) in
      rw (e, v-true)
        (subst
          (λ (b : Bool). IsSound w (idle b) (ask r w true select_title null next) told asked_for)
          (sym writes)
          (said w (idle true) _ _ _ told asked_for (ground arith)
            (ground (arith, null-not_stale w r.db.title_row (summary r).update_ok)) asked))
  | inr e ↦ rw e (leave-IsSound r w waits journal w.do_db_update v)
]

check_image_row-summary :
    (r : Replies) (w : WatchConfig) (o : Option CString)
    → check_image_row r.db w o ≡ check_image_row (summary r) w o
unfolding check_image_row has_thumbnails
check_image_row-summary r w none = refl
check_image_row-summary r w (some image_id) = refl

from_image-IsSound :
    (r : Replies) (w : WatchConfig) (waits : Bool) (journal : ℕ → Bool) (known : Bool)
    → IsSound w
        (idle w.do_db_update)
        (from_image r w waits journal known)
        (told_by r w (if known then check_image (summary r) w else false))
        (written r w (if known then check_image (summary r) w else false))
unfolding from_image check_image
from_image-IsSound r w waits journal false = leave-IsSound r w waits journal w.do_db_update false
from_image-IsSound r w waits journal true =
    let v = check_image_row r.db w r.db.image_row in
    let e = check_image_row-summary r w r.db.image_row in
    said w (idle w.do_db_update) _ _ _ (told_by r w (check_image (summary r) w))
      (written r w (check_image (summary r) w)) (ground (arith, e)) (ground (arith, e))
      (ask-IsSound r w w.do_db_update false (told_by r w v) (written r w v) select_image_id false
        (from_title r w waits journal v) (refl, refl, refl, refl)
        (from_title-IsSound r w waits journal v))

-- Whatever SQLite answers: the calls of is_target_processed follow one another as SQLite wants them
-- (each statement is prepared on an open connection, gets each of its texts, is run once and finalized
-- before the next one, and only a connection opened for writing runs the UPDATE), and the connection is
-- closed exactly when none of the calls fails and the title can be read. The caller is told what the
-- answers put together say, unless they yield a row with a NULL title where an update is asked for, on
-- which the daemon crashes, and the UPDATE is run exactly when the answers ask for it.
pub attempt-IsSound :
    (r : Replies) (dc : DaemonConfig) (w : WatchConfig) (waits : Bool) (journal : ℕ → Bool)
    → IsSound w unopened
        (attempt r w waits journal dc)
        (answer_of (summary r) w)
        (sends_update (summary r) w)
unfolding attempt is_target_processed sends_update crashes
attempt-IsSound r dc w waits journal =
    let v = is_one r.db.exists_row in
    let b = w.do_db_update in
    let next = from_image r w waits journal v in
    let asked =
      ask-IsSound r w b false _ _ select_exists false next (refl, refl, refl, refl)
        (from_image-IsSound r w waits journal v) in
    said w unopened (attempt r w waits journal dc) _ _ (answer_of (summary r) w)
      (sends_update (summary r) w) (ground arith) (ground arith)
      (call-IsSound w unopened (idle b) (open_db b) refl r.db.open_ok false _ _ _ (refl, refl)
        (perform-IsSound w (idle b) (idle b)
          (busy_timeout (dc.db_timeout * (if waits then 2 else 1))) refl _ _ _ asked))
