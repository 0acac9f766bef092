-- ===== src/Processed.antt =====
-- is_target_processed of kfmon.c and the thumbnail checks that it calls: has Nickel processed the icon?
-- SQLite and the file system are not modelled; what they answer is a `Database`.
pub mod Thumbnails
pub mod Verdict
pub mod Munge
pub mod Journal
pub mod Session
pub mod Tests
use Prim.Native.Nat.{◌*◌, ◌/◌, ◌%◌, ◌^◌, bit_and, bit_xor}
use kfmon.Prelude.{
  ℕ, zero, suc, ◌+◌, Bool, true, false, not, ◌&&◌, ◌||◌, Option, none, some, List, [], ◌∷◌, ◌++◌,
  map, CString, codes, streq, if◌then◌else◌, ltb, leb, ◌==◌, length,
}
use kfmon.Config.{WatchConfig}

-- Qt4's hash on 32 bit words.
unfoldable pub qhash_step : ℕ → ℕ → ℕ
qhash_step h byte =
    let h1 = ((h * 2 ^ 4) % 2 ^ 32 + byte) % 2 ^ 32 in
    let h2 = bit_xor h1 (bit_and h1 0xf0000000 / 2 ^ 23) in bit_and h2 0x0fffffff

unfoldable pub qhash_from : ℕ → CString → ℕ
qhash_from h [] = h
qhash_from h (byte ∷ bytes) = qhash_from (qhash_step h byte) bytes

unfoldable pub qhash : CString → ℕ
unfolding qhash_from qhash_step
qhash bytes = qhash_from 0 bytes

-- `%u` of a number below 1000.
unfoldable pub decimal : ℕ → CString
decimal n =
    let units = (b'0' + n % 10) ∷ [] in
    let tens = (b'0' + n / 10 % 10) ∷ units in
    if ltb n 10 then units else if ltb n 100 then tens else (b'0' + n / 100) ∷ tens

abbrev pub kfmon_path_max : ℕ
kfmon_path_max = 512

abbrev pub images_root : CString
images_root = codes "/mnt/onboard/.kobo-images/"

-- A path that snprintf truncates is not checked.
unfoldable pub is_present : (CString → Bool) → CString → Bool
is_present exists path = if leb kfmon_path_max (length path) then false else exists path

abbrev pub v4_suffixes : List CString
v4_suffixes = codes "N3_FULL" ∷ codes "N3_LIBRARY_FULL" ∷ codes "N3_LIBRARY_GRID" ∷ []

abbrev pub v4_path : CString → CString → CString → CString
v4_path images_path image_id suffix =
    images_path ++ (codes "/" ++ (image_id ++ (codes " - " ++ (suffix ++ codes ".parsed"))))

unfoldable pub count_present : (CString → Bool) → CString → CString → List CString → ℕ
count_present exists images_path image_id [] = 0
count_present exists images_path image_id (s ∷ ss) =
    (if is_present exists (v4_path images_path image_id s) then 1 else 0)
    + count_present exists images_path image_id ss

-- The directory of an image, from two bytes of its hash.
unfoldable pub images_path_of : CString → CString
images_path_of image_id =
    let hash = qhash image_id in
    let dir1 = bit_and hash 0xff in
    let dir2 = bit_and hash 0xff00 / 2 ^ 8 in
    images_root ++ (decimal dir1 ++ (codes "/" ++ decimal dir2))

unfoldable pub check_fw_4x_thumbnails : (CString → Bool) → CString → Bool
unfolding images_path_of count_present is_present
check_fw_4x_thumbnails exists image_id =
    let images_path = images_path_of image_id in
    if leb kfmon_path_max (length images_path)
    then false
    else count_present exists images_path image_id v4_suffixes == 3

unfoldable pub is_invalid_char : ℕ → Bool
is_invalid_char c =
    c == b'.'
    || c == b' '
    || c == b':'
    || c == b'/'
    || c == 92
    || c == b'*'
    || c == b'<'
    || c == b'>'
    || c == 34
    || c == b'?'
    || c == b'|'

unfoldable pub replace_invalid_chars : CString → CString
replace_invalid_chars = map (λ c. if is_invalid_char c then b'_' else c)

-- The text split at its last dot (strrchr): what is in front, and what follows if there is one.
unfoldable pub split_ext : CString → CString × Option CString
split_ext [] = ([], none)
split_ext (c ∷ s) =
    let (base, ext) = split_ext s in
    elim ext [
      | some e ↦ (c ∷ base, some e)
      | none ↦ if c == b'.' then ([], some s) else (c ∷ base, none)
    ]

-- The path munged, with `dot` in the place of the dot before its extension.
unfoldable pub munge : ℕ → CString → CString
munge dot path =
    let (base, ext) = split_ext path in
    elim ext [ none ↦ replace_invalid_chars base | some e ↦ replace_invalid_chars base ++ dot ∷ e ]

-- The first variant only exists from firmware 5.6 on.
unfoldable pub check_fw_5x_thumbnails : ℕ → (CString → Bool) → CString → Bool
check_fw_5x_thumbnails fw_version exists book_path =
    (leb 56 fw_version && is_present exists (images_root ++ munge b'.' book_path))
    || is_present exists (images_root ++ munge b'_' book_path)

-- What SQLite and the file system answer during one call, and what is known of the device. A `row` is
-- what a query's step yields, `none` if it yields no row.
pub record Database : Type 0 where
  pub open_ok : Bool
  pub exists_ok : Bool  -- preparing and binding the first query
  pub exists_row : Option ℕ
  pub image_ok : Bool
  pub image_row : Option CString
  pub title_ok : Bool
  pub title_row : Option (Option CString)  -- its column may be NULL
  pub update_ok : Bool
  pub present : CString → Bool  -- access(path, F_OK) == 0
  pub fw_version : ℕ
  pub is_tolino : Bool

abbrev pub book_path_of : WatchConfig → CString
book_path_of w = codes "file://" ++ w.filename

unfoldable pub has_thumbnails : Database → WatchConfig → CString → Bool
has_thumbnails db w image_id =
    if ltb db.fw_version 50 || not db.is_tolino
    then check_fw_4x_thumbnails db.present image_id
    else check_fw_5x_thumbnails db.fw_version db.present (book_path_of w)

-- The second query, once the book is known.
unfoldable pub check_image_row : Database → WatchConfig → Option CString → Bool
check_image_row db w none = false
check_image_row db w (some id) = has_thumbnails db w id

unfoldable pub check_image : Database → WatchConfig → Bool
unfolding check_image_row
check_image db w = if db.image_ok then check_image_row db w db.image_row else false

abbrev pub is_one : Option ℕ → Bool
is_one none = false
is_one (some n) = n == 1

-- What the call returns, if it does: each failing call returns the value of `is_processed` at that point.
unfoldable pub is_target_processed : Database → WatchConfig → Bool
is_target_processed db w =
    if not db.open_ok
    then false
    else if not db.exists_ok
    then false
    else if is_one db.exists_row
    then check_image db w
    else false

-- The row of the query for the title has a NULL there, which strcmp gets as a null pointer.
abbrev pub is_null_title : Option (Option CString) → Bool
is_null_title none = false
is_null_title (some none) = true
is_null_title (some (some title)) = false

abbrev pub is_stale : WatchConfig → Option (Option CString) → Bool
is_stale w none = false
is_stale w (some none) = false  -- strcmp does not return
is_stale w (some (some title)) = not (streq title w.db_title)

-- Whether the call ends in that strcmp, which kills the daemon.
unfoldable pub crashes : Database → WatchConfig → Bool
crashes db w =
    (is_target_processed db w && w.do_db_update) && (db.title_ok && is_null_title db.title_row)

-- What the caller gets, `none` if the call does not return.
abbrev pub answer_of : Database → WatchConfig → Option Bool
answer_of db w = if crashes db w then none else some (is_target_processed db w)

-- Whether the call sends the UPDATE query for the watch's texts.
unfoldable pub sends_update : Database → WatchConfig → Bool
sends_update db w =
    if is_target_processed db w && w.do_db_update
    then (if db.title_ok then is_stale w db.title_row && db.update_ok else false)
    else false

-- How often the check for a rollback journal slept when it ends: `journal n` is whether the journal is
-- there when it is looked for after `n` sleeps. `fuel` bounds the sleeps that are left, and the test
-- of the count comes after each sleep.
abbrev pub max_sleeps : ℕ
max_sleeps = 20

unfoldable pub sleep_while : ℕ → (ℕ → Bool) → ℕ → ℕ
sleep_while zero journal count = count
sleep_while (suc fuel) journal count =
    let later = sleep_while fuel journal (suc count) in
    if journal count then (if leb max_sleeps (suc count) then suc count else later) else count

-- Whether the call gets to the wait: neither a failing call nor a crash has ended it while the texts were
-- updated.
unfoldable pub gets_to_wait : Database → WatchConfig → Bool
gets_to_wait db w =
    is_target_processed db w
    && (not w.do_db_update
        || (db.title_ok
            && (not (is_null_title db.title_row)
                && (not (is_stale w db.title_row) || db.update_ok))))

-- The wait on CLOSE, for what is processed.
unfoldable pub wait_for_journal : Database → WatchConfig → Bool → (ℕ → Bool) → ℕ
wait_for_journal db w wait_for_db journal =
    if gets_to_wait db w && wait_for_db then sleep_while max_sleeps journal 0 else 0
