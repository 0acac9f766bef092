-- ===== src/Ipc/Commands.antt =====
-- How handle_ipc of kfmon.c reads a command: the ladder on its first characters, and sscanf on the
-- commands that name a watch.
use kfmon.Prelude.{
  ℕ, zero, suc, ◌-◌, ◌%◌, ◌^◌, Bool, true, false, ◌&&◌, ◌||◌, Option, none, some, List, [], ◌∷◌,
  Handle, CString, codes, char_at, basename, streq, has_prefix, has_prefix_case, find_from,
  if◌then◌else◌, ltb, ◌==◌,
}
use kfmon.Config.{WatchConfig}
use kfmon.Config.Value.{is_space, skip_spaces, read_digits, starts_with_digit}

-- What a command asks for. The flags are `gui`, and `force` and `trigger`.
pub data Command : Type 0 where
  listing : Bool → Command
  launching : Bool → Bool → Command
  version : Command
  full_version : Command
  unsupported : Command

-- The two flags of a command that starts a watch.
unfoldable pub is_forced : CString → Bool
is_forced buf = char_at buf 0 == b'f'

unfoldable pub is_trigger : CString → Bool
unfolding is_forced
is_trigger buf = if is_forced buf then char_at buf 6 == b't' else char_at buf 0 == b't'

-- The ladder.
unfoldable pub command_of : CString → Command
unfolding is_forced is_trigger
command_of buf =
    if has_prefix_case (codes "list") buf || has_prefix_case (codes "gui-list") buf
    then listing (char_at buf 0 == b'g' || char_at buf 0 == b'G')
    else if has_prefix (codes "start") buf
        || has_prefix (codes "force-start") buf
        || has_prefix (codes "trigger") buf
        || has_prefix (codes "force-trigger") buf
    then launching (is_forced buf) (is_trigger buf)
    else if has_prefix_case (codes "version") buf
    then version
    else if has_prefix_case (codes "full-version") buf
    then full_version
    else unsupported

-- The ordinary characters of a format, and what follows them in the text.
unfoldable pub after_literal : CString → CString → Option CString
after_literal [] s = some s
after_literal (d ∷ text) [] = none
after_literal (d ∷ text) (c ∷ s) = let rest = after_literal text s in if c == d then rest else none

-- The conversion of `%hhu` on a 32 bit long: strtoul, then a cast to eight bits.
unfoldable pub narrow : Bool → ℕ → ℕ
narrow negative v =
    if ltb v (2 ^ 32)
    then (if negative then (2 ^ 32 - v) % 2 ^ 8 else v % 2 ^ 8)
    else (2 ^ 32 - 1) % 2 ^ 8

unfoldable pub scan_digits : Bool → CString → Option ℕ
unfolding narrow
scan_digits negative s =
    if starts_with_digit s then some (narrow negative (read_digits 0 s).0) else none

unfoldable pub scan_signed : CString → Option ℕ
unfolding scan_digits
scan_signed [] = none
scan_signed (c ∷ s) =
    if c == b'-'
    then scan_digits true s
    else if c == b'+'
    then scan_digits false s
    else scan_digits false (c ∷ s)

-- `%hhu`
unfoldable pub scan_hhu : CString → Option ℕ
unfolding scan_signed
scan_hhu s = scan_signed (skip_spaces s)

-- The longest run of at most `n` characters that are no white space.
unfoldable pub take_word : ℕ → CString → CString
take_word zero s = []
take_word (suc n) [] = []
take_word (suc n) (c ∷ s) = let rest = take_word n s in if is_space c then [] else c ∷ rest

unfoldable pub nonempty : CString → Option CString
nonempty [] = none
nonempty (c ∷ s) = some (c ∷ s)

-- `%128s`
unfoldable pub scan_word : CString → Option CString
unfolding nonempty
scan_word s = nonempty (take_word 128 (skip_spaces s))

-- The watch that a command names.
pub data Target : Type 0 where
  by_index : ℕ → Target
  by_name : CString → Target

unfoldable pub as_index : Option CString → Option Target
as_index none = none
as_index (some s) = elim (scan_hhu s) [ none ↦ none | some id ↦ some (by_index id) ]

unfoldable pub as_name : Option CString → Option Target
as_name none = none
as_name (some s) = elim (scan_word s) [ none ↦ none | some name ↦ some (by_name name) ]

-- The four calls of sscanf; `none` if it did not assign.
unfoldable pub scan_target : Bool → Bool → CString → Option Target
unfolding as_index as_name
scan_target force trigger buf =
    if force
    then (if trigger
        then as_name (after_literal (codes "force-trigger:") buf)
        else as_index (after_literal (codes "force-start:") buf))
    else if trigger
    then as_name (after_literal (codes "trigger:") buf)
    else as_index (after_literal (codes "start:") buf)

-- The loop over the active watches for an index, `from` being the loop's variable.
unfoldable pub find_index : ℕ → ℕ → List WatchConfig → Handle
find_index id from [] = none
find_index id from (w ∷ ws) =
    let later = find_index id (suc from) ws in
    if w.is_active && id == from then some from else later

-- The same for a basename.
unfoldable pub find_basename : CString → List WatchConfig → Handle
find_basename name ws = find_from (λ w. w.is_active && streq (basename w.filename) name) 0 ws

unfoldable pub find_target : List WatchConfig → Target → Handle
unfolding find_index find_basename
find_target ws (by_index id) = find_index id 0 ws
find_target ws (by_name name) = find_basename name ws
