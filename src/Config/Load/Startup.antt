-- ===== src/Config/Load/Startup.antt =====
-- What loading the configuration leaves, whatever the files are.
use native.Mathlib.Decide.{dec_lt}
use kfmon.Prelude.{
  ℕ, ◌+◌, ◌<◌, ◌≤◌, ◌≡◌, refl, ap, ◌∙◌, Bool, true, false, ◌&&◌, Option, none, some, List, [], ◌∷◌,
  CString, arith, if_all, leb, Bool-cases, inl, inr, All-get_or, All-replicate, set, set-set,
  get_or-set_self, get_or-set_ne, strcaseeq,
}
use mathlib.Core.Path.{subst}
use kfmon.Config.{WatchConfig, zero_watch, watch_max, watch_at}
use kfmon.Config.Library.{Str5cpy, Str5Laws, Inih}
use kfmon.Config.Handlers.{watch_handler}
use kfmon.Config.Handlers.Refusal.{IsSized, watch_handler-IsSized}
use kfmon.Config.Validate.{validate_watch_config}
use kfmon.Config.WellFormed.{
  IsWatch, WellFormed, zero_watch-IsWatch, set_inactive-WellFormed, activate-WellFormed,
  replicate-WellFormed,
}
use kfmon.Config.Load.{
  Load, DirEntry, load_daemon, load_watch, load_entry, load_entries, load_user, load_config,
  unloaded, is_ini_file, main_name, user_name,
}

-- The slots in use are exactly the first `watch_count` ones.
pub record Loaded (l : Load) : Type 0 where
  pub formed : WellFormed l.watches
  pub bounded : l.watch_count ≤ watch_max
  pub used : (i : ℕ) → i < l.watch_count → (watch_at l.watches i).is_active ≡ true
  pub unused : (i : ℕ) → l.watch_count ≤ i → (watch_at l.watches i).is_active ≡ false

module _ (inih : Inih) (str5cpy : Str5cpy) (laws : Str5Laws str5cpy) where
  open inih use {ini_parse, by_handler}

  abbrev IsIdle : WatchConfig → Type 0
  IsIdle w = IsSized w × (w.is_active ≡ false)

  -- Parsing into an idle slot leaves it idle.
  pub parsed-IsIdle :
      (path : CString) (w : WatchConfig)
      → IsSized w
      → w.is_active ≡ false
      → IsSized (ini_parse WatchConfig path (watch_handler str5cpy) w).0
        × ((ini_parse WatchConfig path (watch_handler str5cpy) w).0.is_active ≡ false)
  parsed-IsIdle path w s a =
      by_handler WatchConfig IsIdle path (watch_handler str5cpy) w
        (λ x section key value p.
          let (q, r) = watch_handler-IsSized str5cpy laws x section key value p.0 in (q, r.0 ∙ p.1))
        (s, a)

  -- One more watch at the end of the used slots.
  extend-Loaded :
      (l : Load) (v : WatchConfig)
      → l.watch_count < watch_max
      → v.is_active ≡ true
      → WellFormed (set l.watches l.watch_count v)
      → Loaded l
      → Loaded
          (record l { watches = set l.watches l.watch_count v; watch_count = l.watch_count + 1 })
  extend-Loaded l v lt a f h =
      let ws = l.watches in
      let n = l.watch_count in
      record {
        formed = f;
        bounded = omega arith;
        used = λ i b. elim (dec_lt i n) [
          | yes below ↦
              ap (λ (w : WatchConfig). w.is_active)
                (get_or-set_ne ws n i v zero_watch (omega arith))
              ∙ h.used i below
          | no above ↦
              let e : n ≡ i = omega arith in
              subst (λ j. (watch_at (set ws n v) j).is_active ≡ true) e
                (ap (λ (w : WatchConfig). w.is_active)
                    (get_or-set_self ws n v zero_watch (omega (arith, h.formed.complete)))
                  ∙ a)
        ];
        unused = λ i b.
            ap (λ (w : WatchConfig). w.is_active) (get_or-set_ne ws n i v zero_watch (omega arith))
            ∙ h.unused i (omega arith);
      }

  -- The next slot is left unused.
  clear-Loaded :
      (l : Load)
      → l.watch_count < watch_max
      → Loaded l
      → Loaded (record l { watches = set l.watches l.watch_count zero_watch })
  clear-Loaded l lt h =
      let ws = l.watches in
      let n = l.watch_count in
      record {
        formed = set_inactive-WellFormed ws n zero_watch zero_watch-IsWatch.0 refl h.formed;
        bounded = h.bounded;
        used = λ i b.
            ap (λ (w : WatchConfig). w.is_active)
              (get_or-set_ne ws n i zero_watch zero_watch (omega arith))
            ∙ h.used i b;
        unused = λ i b. elim (dec_lt n i) [
          | yes below ↦
              ap (λ (w : WatchConfig). w.is_active)
                (get_or-set_ne ws n i zero_watch zero_watch (omega arith))
              ∙ h.unused i b
          | no above ↦
              let e : n ≡ i = omega arith in
              subst (λ j. (watch_at (set ws n zero_watch) j).is_active ≡ false) e
                (ap (λ (w : WatchConfig). w.is_active)
                  (get_or-set_self ws n zero_watch zero_watch (omega (arith, h.formed.complete))))
        ];
      }

  load_watch-Loaded :
      (l : Load) (path : CString)
      → l.watch_count < watch_max
      → Loaded l
      → Loaded (load_watch inih str5cpy l path)
  unfolding load_watch
  load_watch-Loaded l path lt h =
      let ws = l.watches in
      let n = l.watch_count in
      let slot = watch_at ws n in
      let sized = (All-get_or IsWatch ws n zero_watch zero_watch-IsWatch h.formed.watches).0 in
      let idle = parsed-IsIdle path slot sized (h.unused n (omega arith)) in
      let w = (ini_parse WatchConfig path (watch_handler str5cpy) slot).0 in
      let formed = set_inactive-WellFormed ws n w idle.0 idle.1 h.formed in
      let v = record w { is_active = true } in
      let parsed = (ini_parse WatchConfig path (watch_handler str5cpy) slot).1 in
      elim (Bool-cases (parsed && validate_watch_config (set ws n w) w)) [
        | inl e ↦
            rw (e, set-set ws n w v)
              (extend-Loaded l v lt refl
                (subst WellFormed (set-set ws n w v)
                  (activate-WellFormed (set ws n w) n w idle.0 (ground arith) formed))
                h)
        | inr e ↦ rw (e, set-set ws n w zero_watch) (clear-Loaded l lt h)
      ]

  load_daemon-Loaded :
      (l : Load) (path : CString) → Loaded l → Loaded (load_daemon inih str5cpy l path)
  unfolding load_daemon
  load_daemon-Loaded l path h = record {
    formed = h.formed;
    bounded = h.bounded;
    used = h.used;
    unused = h.unused;
  }

  load_entry-Loaded : (l : Load) (e : DirEntry) → Loaded l → Loaded (load_entry inih str5cpy l e)
  unfolding load_entry
  load_entry-Loaded l e h =
      if_all Loaded (is_ini_file e)
        (if_all Loaded (strcaseeq e.name main_name) (load_daemon-Loaded l e.path h) (
          if_all Loaded (strcaseeq e.name user_name) h
            (elim (Bool-cases (leb watch_max l.watch_count)) [
              | inl full ↦ rw full h
              | inr room ↦ rw room (load_watch-Loaded l e.path (ground arith) h)
            ])))
        h

  load_entries-Loaded :
      (l : Load) (es : List DirEntry) → Loaded l → Loaded (load_entries inih str5cpy l es)
  unfolding load_entries
  load_entries-Loaded l [] h = h
  load_entries-Loaded l (e ∷ es) h =
      load_entries-Loaded (load_entry inih str5cpy l e) es (load_entry-Loaded l e h)

  load_config-Loaded_from :
      (l : Load) (walk : Option (List DirEntry)) (user_present : Bool) (user_path : CString)
      → Loaded l
      → Loaded (load_config inih str5cpy walk user_present user_path l)
  unfolding load_config load_user
  load_config-Loaded_from l none user_present user_path h = record {
    formed = h.formed;
    bounded = h.bounded;
    used = h.used;
    unused = h.unused;
  }
  load_config-Loaded_from l (some es) user_present user_path h =
      let done = load_entries-Loaded l es h in
      if_all Loaded user_present
        (load_daemon-Loaded (load_entries inih str5cpy l es) user_path done) done

  unloaded-Loaded : Loaded unloaded
  unloaded-Loaded = record {
    formed = replicate-WellFormed;
    bounded = omega arith;
    used = λ i h. elim h [ ];
    unused = λ i h.
        (All-get_or (λ (w : WatchConfig). w.is_active ≡ false) unloaded.watches i zero_watch refl
          (All-replicate (λ (w : WatchConfig). w.is_active ≡ false) watch_max zero_watch refl));
  }

  -- Whatever the configuration files hold and in whatever order they are found, loading them at startup
  -- leaves at most WATCH_MAX watches, in the first slots; each of them has its mandatory keys, every
  -- text fits its buffer, and no two have the same basename.
  pub load_config-Loaded :
      (walk : Option (List DirEntry)) (user_present : Bool) (user_path : CString)
      → Loaded (load_config inih str5cpy walk user_present user_path unloaded)
  load_config-Loaded walk user_present user_path =
      load_config-Loaded_from unloaded walk user_present user_path unloaded-Loaded
