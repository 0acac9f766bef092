-- ===== src/Config/Handlers/Refusal.antt =====
-- What a handler leaves when it refuses a line, and what it keeps on every line.
use kfmon.Prelude.{
  ℕ, zero, suc, ◌<◌, ◌≤◌, ◌-◌, ◌≡◌, refl, Bool, false, Option, none, some, CString, arith, length,
  [], ◌∷◌, inl, inr, Option-cases,
}
use native.Mathlib.Decide.{dec_lt}
use kfmon.Config.{DaemonConfig, WatchConfig, cfg_sz_max, db_sz_max}
use kfmon.Config.Value.{strtobool, strtoul_hu}
use kfmon.Config.Library.{Str5cpy, Mode, trunc, notrunc, CopyStatus, Str5Laws, take}
use kfmon.Config.Handlers.{
  store, WatchKey, filename, action, label, hidden, block_spawns, skip_db_checks, do_db_update,
  db_title, db_author, db_comment, reboot_on_exit, watch_key, set_watch_key, DaemonKey, db_timeout,
  use_syslog, with_notifications, with_storage_notifications, daemon_key, set_daemon_key,
  daemon_handler, watch_handler, store_whole, store_cut,
}

-- A refused line leaves the structure alone.
abbrev Kept {ℓ} : {C : Type ℓ} → C → C × Bool → Type ℓ
Kept c r = r.1 ≡ false → r.0 ≡ c

store-Kept {ℓ κ} :
    {A : Type ℓ} {C : Type κ} (c : C) (put : A → C) (o : Option A) → Kept c (store c put o)
store-Kept c put none h = refl
store-Kept c put (some a) h = absurd (ground arith)

set_daemon_key-Kept :
    (c : DaemonConfig) (value : CString) (k : DaemonKey) → Kept c (set_daemon_key c value k)
unfolding set_daemon_key
set_daemon_key-Kept c value db_timeout = store-Kept c _ (strtoul_hu value)
set_daemon_key-Kept c value use_syslog = store-Kept c _ (strtobool (some value))
set_daemon_key-Kept c value with_notifications = store-Kept c _ (strtobool (some value))
set_daemon_key-Kept c value with_storage_notifications = store-Kept c _ (strtobool (some value))

-- A line that `daemon_handler` refuses leaves the daemon's configuration as it was.
pub daemon_handler-refused :
    (c : DaemonConfig) (section key value : CString)
    → (daemon_handler c section key value).1 ≡ false
    → (daemon_handler c section key value).0 ≡ c
unfolding daemon_handler
daemon_handler-refused c section key value = elim (Option-cases (daemon_key section key)) [
  | inl e ↦ rw (e, daemon_handler) (λ h. refl)
  | inr (k, e) ↦ rw (e, daemon_handler) (set_daemon_key-Kept c value k)
]

length-take-lt : (n : ℕ) (s : CString) → length (take n s) ≤ n
length-take-lt zero s = omega arith
length-take-lt (suc n) [] = omega arith
length-take-lt (suc n) (c ∷ s) = omega (arith, length-take-lt n s)

-- The text fields fit their buffers, NUL included.
pub record IsSized (w : WatchConfig) : Type 0 where
  pub filename_fits : length w.filename < cfg_sz_max
  pub action_fits : length w.action < cfg_sz_max
  pub label_fits : length w.label < cfg_sz_max
  pub title_fits : length w.db_title < db_sz_max
  pub author_fits : length w.db_author < db_sz_max
  pub comment_fits : length w.db_comment < db_sz_max

-- The fields that only the running daemon sets.
abbrev pub SameRuntime : WatchConfig → WatchConfig → Type 0
SameRuntime w w' =
    (w'.is_active ≡ w.is_active)
    × (w'.processing_ts ≡ w.processing_ts)
    × (w'.inotify_wd ≡ w.inotify_wd)
    × (w'.pending_processing ≡ w.pending_processing)
    × (w'.wd_was_destroyed ≡ w.wd_was_destroyed)

module _ (str5cpy : Str5cpy) (laws : Str5Laws str5cpy) where
  store_whole-Kept :
      (w : WatchConfig) (put : CString → WatchConfig) (dst value : CString)
      → put dst ≡ w
      → Kept w (store_whole put (str5cpy dst cfg_sz_max value cfg_sz_max notrunc))
  unfolding store_whole
  store_whole-Kept w put dst value e = elim (dec_lt (length value) cfg_sz_max) [
    | yes lt ↦ rw (laws.fits dst value cfg_sz_max notrunc lt) (λ h. absurd (ground arith))
    | no ge ↦ rw (laws.refused dst value cfg_sz_max (omega arith) (omega arith)) (λ h. e)
  ]

  store_cut-Kept :
      (w : WatchConfig) (put : CString → WatchConfig) (r : CString × CopyStatus)
      → Kept w (store_cut put r)
  unfolding store_cut
  store_cut-Kept w put r h = absurd (ground arith)

  set_watch_key-Kept :
      (w : WatchConfig) (value : CString) (k : WatchKey) → Kept w (set_watch_key str5cpy w value k)
  unfolding set_watch_key
  set_watch_key-Kept w value filename =
      store_whole-Kept w (λ s. record w { filename = s }) w.filename value refl
  set_watch_key-Kept w value action =
      store_whole-Kept w (λ s. record w { action = s }) w.action value refl
  set_watch_key-Kept w value label = store_cut-Kept w _ _
  set_watch_key-Kept w value hidden = store-Kept w _ (strtobool (some value))
  set_watch_key-Kept w value block_spawns = store-Kept w _ (strtobool (some value))
  set_watch_key-Kept w value skip_db_checks = store-Kept w _ (strtobool (some value))
  set_watch_key-Kept w value do_db_update = store-Kept w _ (strtobool (some value))
  set_watch_key-Kept w value db_title = store_cut-Kept w _ _
  set_watch_key-Kept w value db_author = store_cut-Kept w _ _
  set_watch_key-Kept w value db_comment = store_cut-Kept w _ _
  set_watch_key-Kept w value reboot_on_exit = λ h. refl

  -- A line that `watch_handler` refuses (an unknown key, a value that is no boolean, a path or action
  -- that is too long) leaves the watch's configuration as it was.
  pub watch_handler-refused :
      (w : WatchConfig) (section key value : CString)
      → (watch_handler str5cpy w section key value).1 ≡ false
      → (watch_handler str5cpy w section key value).0 ≡ w
  unfolding watch_handler
  watch_handler-refused w section key value = elim (Option-cases (watch_key section key)) [
    | inl e ↦ rw (e, watch_handler) (λ h. refl)
    | inr (k, e) ↦ rw (e, watch_handler) (set_watch_key-Kept w value k)
  ]

  -- A copy leaves a text that fits.
  pub str5cpy-fits :
      (dst value : CString) (size : ℕ) (mode : Mode)
      → 0 < size
      → length dst < size
      → length (str5cpy dst size value size mode).0 < size
  str5cpy-fits dst value size mode pos fit = elim (dec_lt (length value) size) [
    | yes lt ↦ rw (laws.fits dst value size mode lt) lt
    | no ge ↦ long mode ge
  ]
    where
      long : (m : Mode) → ¬ (length value < size) → length (str5cpy dst size value size m).0 < size
      long trunc ge =
          rw (laws.truncated dst value size pos (omega arith))
            (omega (arith, length-take-lt (size - 1) value))
      long notrunc ge = rw (laws.refused dst value size pos (omega arith)) fit

  set_watch_key-IsSized :
      (w : WatchConfig) (value : CString) (k : WatchKey)
      → IsSized w
      → IsSized (set_watch_key str5cpy w value k).0
  unfolding set_watch_key store_whole store_cut
  set_watch_key-IsSized w value filename v =
      omega (arith, str5cpy-fits w.filename value cfg_sz_max notrunc)
  set_watch_key-IsSized w value action v =
      omega (arith, str5cpy-fits w.action value cfg_sz_max notrunc)
  set_watch_key-IsSized w value label v = omega (arith, str5cpy-fits w.label value cfg_sz_max trunc)
  set_watch_key-IsSized w value hidden v = ground arith
  set_watch_key-IsSized w value block_spawns v = ground arith
  set_watch_key-IsSized w value skip_db_checks v = ground arith
  set_watch_key-IsSized w value do_db_update v = ground arith
  set_watch_key-IsSized w value db_title v =
      omega (arith, str5cpy-fits w.db_title value db_sz_max trunc)
  set_watch_key-IsSized w value db_author v =
      omega (arith, str5cpy-fits w.db_author value db_sz_max trunc)
  set_watch_key-IsSized w value db_comment v =
      omega (arith, str5cpy-fits w.db_comment value db_sz_max trunc)
  set_watch_key-IsSized w value reboot_on_exit v = v

  set_watch_key-SameRuntime :
      (w : WatchConfig) (value : CString) (k : WatchKey)
      → SameRuntime w (set_watch_key str5cpy w value k).0
  unfolding set_watch_key store_whole store_cut
  set_watch_key-SameRuntime w value hidden = ground arith
  set_watch_key-SameRuntime w value block_spawns = ground arith
  set_watch_key-SameRuntime w value skip_db_checks = ground arith
  set_watch_key-SameRuntime w value do_db_update = ground arith
  set_watch_key-SameRuntime w value _ = (refl, refl, refl, refl, refl)

  -- On every line, known or not, accepted or refused, `watch_handler` keeps each text field within its
  -- buffer, and leaves the fields that only the running daemon sets as they were.
  pub watch_handler-IsSized :
      (w : WatchConfig) (section key value : CString)
      → IsSized w
      → IsSized (watch_handler str5cpy w section key value).0
        × SameRuntime w (watch_handler str5cpy w section key value).0
  unfolding watch_handler
  watch_handler-IsSized w section key value v = elim (Option-cases (watch_key section key)) [
    | inl e ↦ rw (e, watch_handler) (v, (refl, refl, refl, refl, refl))
    | inr (k, e) ↦
        rw (e, watch_handler)
          (set_watch_key-IsSized w value k v, set_watch_key-SameRuntime w value k)
  ]
