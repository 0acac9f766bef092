-- ===== src/Firmware.antt =====
-- fw_version_check of kfmon.c: which kind of firmware Nickel's version tag names. strverscmp of the C
-- library is a parameter, as `at_least a b`: strverscmp(a, b) >= 0.
pub mod Thresholds
pub mod Tests
use kfmon.Prelude.{
  ℕ, Bool, true, false, Option, none, some, List, [], ◌∷◌, CString, codes, if◌then◌else◌, ◌==◌,
}

abbrev pub AtLeast : Type 0
AtLeast = CString → CString → Bool

-- What fread left in the buffer, `none` if the file or the buffer could not be had.
abbrev pub VersionTag : Type 0
VersionTag = Option CString

-- Without a tag fwVersion stays as it was. A tag of fewer than three fields makes strverscmp read from a
-- null pointer.
pub data Checked : Type 0 where
  unknown crashed : Checked
  version : Bool → ℕ → Checked

-- The line feed at the end of what was read.
unfoldable pub strip_lf : CString → CString
strip_lf [] = []
strip_lf (c ∷ []) = if c == 10 then [] else c ∷ []
strip_lf (c ∷ d ∷ s) = c ∷ strip_lf (d ∷ s)

-- The buffer as a C string.
unfoldable pub until_nul : CString → CString
until_nul [] = []
until_nul (c ∷ s) = let later = until_nul s in if c == 0 then [] else c ∷ later

-- strsep(&line, ","): the field, and the new line.
unfoldable pub split_comma : CString → CString × Option CString
split_comma [] = ([], none)
split_comma (c ∷ s) =
    let (field, rest) = split_comma s in if c == b',' then ([], some s) else (c ∷ field, rest)

unfoldable pub strsep : Option CString → Option CString × Option CString
unfolding split_comma
strsep none = (none, none)
strsep (some line) = let (field, rest) = split_comma line in (some field, rest)

-- The third field, which follows the serial number and the kernel's version.
unfoldable pub firmware_field : CString → Option CString
unfolding strsep
firmware_field line =
    let (sn, line1) = strsep (some line) in
    let (kv, line2) = strsep line1 in let (fw, line3) = strsep line2 in fw

unfoldable pub classify : AtLeast → Option CString → Checked
classify at_least none = crashed
classify at_least (some fw) =
    let is_okay = at_least fw (codes "4.29.18730") in
    version is_okay (
      if at_least fw (codes "5.0.111111")
      then (if at_least fw (codes "5.6.209315") then 56 else 50)
      else if is_okay
      then 42
      else 40)

unfoldable pub fw_version_check : AtLeast → VersionTag → Checked
unfolding classify firmware_field until_nul strip_lf
fw_version_check at_least none = unknown
fw_version_check at_least (some []) = unknown
fw_version_check at_least (some (c ∷ s)) =
    classify at_least (firmware_field (until_nul (strip_lf (c ∷ s))))
