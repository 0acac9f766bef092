-- ===== src/Config/Tests.antt =====
-- A concrete str5cpy and a concrete ini_parse, and the watches of the runs of the configuration code.
pub mod Values
pub mod Loads
pub mod Updates
use kfmon.Prelude.{
  ℕ, ◌-◌, ◌<◌, ◌≤◌, ◌≡◌, refl, Bool, true, false, ◌&&◌, List, [], ◌∷◌, arith, if◌then◌else◌, ltb,
  length, set, replicate, CString, codes,
}
use kfmon.Process.Table.{ProcessTable, init_process_table, add_process_to_table}
use kfmon.Config.{WatchConfig, watch_max, zero_watch}
use kfmon.Config.Library.{
  take, Mode, trunc, notrunc, CopyStatus, oknotrunc, oktrunc, etrunc, Str5cpy, Str5Laws, Handler,
  Inih,
}
use kfmon.Config.Load.{DirEntry}
use kfmon.Config.Update.{Visit}

abbrev shorten : Mode → CString → ℕ → CString → CString × CopyStatus
shorten trunc dst size src = (take (size - 1) src, oktrunc)
shorten notrunc dst size src = (dst, etrunc)

abbrev pub copy : Str5cpy
copy dst size src nb mode =
    if ltb (length src) size then (src, oknotrunc) else shorten mode dst size src

pub copy-laws : Str5Laws copy
copy-laws = record {
  fits = λ dst src size mode h. ground arith;
  refused = λ dst src size p h. ground arith;
  truncated = λ dst src size p h. ground arith;
}

-- Every file is a watch on its own path.
abbrev two_lines {ℓ} :
    {S : Type ℓ} → (S → CString → CString → CString → S × Bool) → CString → S → S × Bool
two_lines handler path user =
    let first = handler user (codes "watch") (codes "filename") path in
    let second = handler first.0 (codes "watch") (codes "action") (codes "/bin/true") in
    (second.0, first.1 && second.1)

abbrev pub own_path : Inih
own_path = record {
  ini_parse = λ S path handler user. two_lines handler path user;
  by_handler = λ S P path handler user step h. step _ _ _ _ (step _ _ _ _ h);
}

abbrev pub one_file : DirEntry
one_file = record { is_file = true; name = codes "a.ini"; path = codes "/w/a.png" }

-- The watch of that file.
abbrev pub one_watch : WatchConfig
one_watch = record zero_watch {
  filename = codes "/w/a.png";
  action = codes "/bin/true";
  is_active = true;
}

abbrev pub no_watches : List WatchConfig
no_watches = replicate watch_max zero_watch

abbrev pub one_slot : List WatchConfig
one_slot = set no_watches 0 one_watch

-- The first watch runs.
abbrev pub busy_table : ProcessTable
busy_table = add_process_to_table init_process_table 0 4711 0

abbrev pub one_visit : Visit
one_visit = record { entry = one_file; table = busy_table }
