-- ===== src/Config/Update/Search.antt =====
-- What a write past new_watch_list leaves open, and what the search for a watch on the same file finds, in
-- update_watch_configs of kfmon.c.
use kfmon.Prelude.{
  ℕ, ◌≡◌, true, ◌&&◌, Option, none, some, List, CString, arith, get_elem?, find_from-passes, streq,
  streq_iff,
}
use mathlib.Core.Path.{subst}
use kfmon.Config.{WatchConfig}
use kfmon.Config.Update.{Update, find_watch}

-- What holds of the state, if no write went past the list.
abbrev pub Within {ℓ} : (Update → Type ℓ) → Option Update → Type ℓ
Within P none = Unit
Within P (some u) = P u

-- The watch that `find_watch` finds: active, and on the file looked for.
pub record Found (name : CString) (ws : List WatchConfig) (i : ℕ) : Type 0 where
  pub watch : WatchConfig
  pub at_slot : get_elem? ws i ≡ some watch
  pub active : watch.is_active ≡ true
  pub same_file : name ≡ watch.filename

pub find_watch-Found :
    (name : CString) (ws : List WatchConfig) (i : ℕ) → find_watch name ws ≡ some i → Found name ws i
unfolding find_watch
find_watch-Found name ws i e =
    let (k, x, p, q, r) = find_from-passes (λ w. w.is_active && streq name w.filename) 0 ws i e in
    record {
      watch = x;
      at_slot = subst (λ j. get_elem? ws j ≡ some x) (omega arith) q;
      active = ground arith;
      same_file = (streq_iff name x.filename).0 (ground arith);
    }
