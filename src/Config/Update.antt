-- ===== src/Config/Update.antt =====
-- update_watch_configs of kfmon.c: the watches after the configuration directory has changed.
pub mod Purge
pub mod Search
pub mod Seen
pub mod Confirmed
pub mod Overrun
pub mod Invariant
pub mod Displaced
use kfmon.Prelude.{
  ℕ, suc, Bool, true, false, not, ◌&&◌, ◌||◌, Option, none, some, List, [], ◌∷◌, ◌++◌, CString,
  streq, strcaseeq, if◌then◌else◌, ltb, ◌==◌, set, length, find_from, Handle,
}
use kfmon.Process.Table.{ProcessTable, is_watch_already_spawned}
use kfmon.Config.{WatchConfig, watch_max, zero_watch, get_next_available_watch_entry}
use kfmon.Config.Library.{Str5cpy, Inih}
use kfmon.Config.Handlers.{watch_handler}
use kfmon.Config.Validate.{validate_watch_config}
use kfmon.Config.Merge.{validate_and_merge_watch_config}
use kfmon.Config.Load.{DirEntry, is_ini_file, main_name, user_name}

-- An entry of the directory, and the process table at the time it is looked at (reapers run beside).
pub record Visit : Type 0 where
  pub entry : DirEntry
  pub table : ProcessTable

-- The watches, the filled part of `new_watch_list`, and `notify_update`.
pub record Update : Type 0 where
  pub watches : List WatchConfig
  pub kept : List ℕ
  pub notify : Bool

-- `new_watch_list[new_watch_count++] = watch_idx;`. There is no test of the bound in the code: `none`
-- is the write past the array.
unfoldable pub keep : ℕ → Update → Option Update
keep i u =
    if ltb (length u.kept) watch_max then some (record u { kept = u.kept ++ i ∷ [] }) else none

-- The search for an active watch on the same file.
unfoldable pub find_watch : CString → List WatchConfig → Handle
find_watch name ws = find_from (λ w. w.is_active && streq name w.filename) 0 ws

-- A new watch gets the slot that was found, if it is valid.
unfoldable pub place_watch : Update → WatchConfig → ℕ → Option Update
place_watch u w i =
    let ws = set u.watches i w in
    if validate_watch_config ws w
    then keep i (record u { watches = set ws i (record w { is_active = true }); notify = true })
    else some (record u { watches = set ws i zero_watch })

unfoldable pub add_watch : Update → WatchConfig → Option Update
add_watch u w = elim (get_next_available_watch_entry u.watches) [
  | none ↦ some u
  | some i ↦ place_watch u w i
]

-- Neither the main configuration nor the user's.
unfoldable pub is_watch_file : DirEntry → Bool
is_watch_file e =
    is_ini_file e && (not (strcaseeq e.name main_name) && not (strcaseeq e.name user_name))

module _ (str5cpy : Str5cpy) where
  -- What was parsed is merged into watch `i`, which is dropped if that is not valid.
  unfoldable pub merge_watch : Update → WatchConfig → ℕ → Option Update
  merge_watch u w i =
      let (ws, sane, was_updated) = validate_and_merge_watch_config str5cpy w u.watches i in
      if sane
      then keep i (record u { watches = ws; notify = u.notify || was_updated })
      else some (record u { watches = set ws i zero_watch; notify = true })

  -- A known watch is left alone while its process runs.
  unfoldable pub update_watch : ProcessTable → Update → WatchConfig → ℕ → Option Update
  update_watch pt u w i = if is_watch_already_spawned pt i then keep i u else merge_watch u w i

  unfoldable pub update_parsed : ProcessTable → Update → WatchConfig → Option Update
  update_parsed pt u w = elim (find_watch w.filename u.watches) [
    | none ↦ add_watch u w
    | some i ↦ update_watch pt u w i
  ]

  module _ (inih : Inih) where
    open inih use {ini_parse}

    unfoldable pub update_file : ProcessTable → Update → CString → Option Update
    update_file pt u path =
        let (w, parsed) = ini_parse WatchConfig path (watch_handler str5cpy) zero_watch in
        if parsed then update_parsed pt u w else some u

    unfoldable pub update_entry : Update → Visit → Option Update
    update_entry u v = if is_watch_file v.entry then update_file v.table u v.entry.path else some u

    unfoldable pub update_entries : Update → List Visit → Option Update
    update_entries u [] = some u
    update_entries u (v ∷ vs) = elim (update_entry u v) [
      | none ↦ none
      | some u' ↦ update_entries u' vs
    ]

-- The inner loop of the purge: is the index in the list?
unfoldable pub is_kept : ℕ → List ℕ → Bool
is_kept i [] = false
is_kept i (k ∷ ks) = if i == k then true else is_kept i ks

-- Active watches from index `i` on whose index was not kept are cleared.
unfoldable pub purge_from : ℕ → List ℕ → List WatchConfig → List WatchConfig
purge_from i kept [] = []
purge_from i kept (w ∷ ws) =
    (if w.is_active && not (is_kept i kept) then zero_watch else w) ∷ purge_from (suc i) kept ws

-- Whether there was one.
unfoldable pub has_stale : ℕ → List ℕ → List WatchConfig → Bool
has_stale i kept [] = false
has_stale i kept (w ∷ ws) = (w.is_active && not (is_kept i kept)) || has_stale (suc i) kept ws

unfoldable pub purge : Update → Update
purge u = record u {
  watches = purge_from 0 u.kept u.watches;
  notify = u.notify || has_stale 0 u.kept u.watches;
}

-- How a call ends: -1 if the directory cannot be walked, a write past `new_watch_list`, or 0 with the
-- watches and whether the socket's mtime is updated.
pub data Updated : Type 0 where
  failed : Updated
  overrun : Updated
  updated : Update → Updated

abbrev pub finish : Option Update → Updated
finish none = overrun
finish (some u) = updated (purge u)

unfoldable pub update_watch_configs :
    Str5cpy → Inih → Option (List Visit) → List WatchConfig → Updated
update_watch_configs str5cpy inih none ws = failed
update_watch_configs str5cpy inih (some vs) ws =
    finish (update_entries str5cpy inih (record { watches = ws; kept = []; notify = false }) vs)
