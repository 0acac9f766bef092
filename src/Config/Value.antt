-- ===== src/Config/Value.antt =====
-- strtobool and strtoul_hu of kfmon.c, which read the values of the configuration files.
pub mod Words
pub mod Numbers
use kfmon.Prelude.{
  ℕ, ◌+◌, ◌-◌, ◌*◌, ◌%◌, ◌^◌, Bool, true, false, not, ◌&&◌, ◌||◌, Option, none, some, [], ◌∷◌,
  CString, codes, char_at, is_blank, strcaseeq, leb, ltb, ◌==◌, if◌then◌else◌,
}

-- The `switch` on the first character, the ladder of its cases written out. `none` is -EINVAL, and
-- then `*result` is left alone.
unfoldable pub bool_of : CString → Option Bool
bool_of str =
    let c = char_at str 0 in
    if c == b't' || c == b'T'
    then (if strcaseeq str (codes "true") then some true else none)
    else if c == b'y' || c == b'Y'
    then (if strcaseeq str (codes "yes") then some true else none)
    else if c == b'1'
    then (if char_at str 1 == 0 then some true else none)
    else if c == b'f' || c == b'F'
    then (if strcaseeq str (codes "false") then some false else none)
    else if c == b'n' || c == b'N'
    then (if (char_at str 1 == b'o' || char_at str 1 == b'O') && char_at str 2 == 0
        then some false
        else none)
    else if c == b'0'
    then (if char_at str 1 == 0 then some false else none)
    else if c == b'o' || c == b'O'
    then (if char_at str 1 == b'n' || char_at str 1 == b'N'
        then (if char_at str 2 == 0 then some true else none)
        else if char_at str 1 == b'f' || char_at str 1 == b'F'
        then (if (char_at str 2 == b'f' || char_at str 2 == b'F') && char_at str 3 == 0
            then some false
            else none)
        else none)
    else none

-- `none` for the NULL pointer.
unfoldable pub strtobool : Option CString → Option Bool
unfolding bool_of
strtobool none = none
strtobool (some str) = bool_of str

-- `isspace` in the C locale.
unfoldable pub is_space : ℕ → Bool
is_space c = c == b' ' || leb 9 c && leb c 13

unfoldable pub is_digit : ℕ → Bool
is_digit c = leb b'0' c && leb c b'9'

unfoldable pub skip_spaces : CString → CString
skip_spaces [] = []
skip_spaces (c ∷ s) = if is_space c then skip_spaces s else c ∷ s

unfoldable pub skip_plus : CString → CString
skip_plus [] = []
skip_plus (c ∷ s) = if c == b'+' then s else c ∷ s

-- The digits in front, read onto `acc`, and what follows them.
unfoldable pub read_digits : ℕ → CString → ℕ × CString
unfolding is_digit
read_digits acc [] = (acc, [])
read_digits acc (c ∷ s) =
    let more = read_digits (acc * 10 + (c - b'0')) s in if is_digit c then more else (acc, c ∷ s)

-- The C library's strtoul(str, &endptr, 10) with a 32 bit long, for a text without a minus sign.
pub record Strtoul : Type 0 where
  pub val : ℕ
  pub endptr : CString  -- the text from there on
  pub moved : Bool  -- endptr != str
  pub erange : Bool  -- errno was set

unfoldable pub starts_with_digit : CString → Bool
unfolding is_digit
starts_with_digit s = is_digit (char_at s 0)

unfoldable pub strtoul : CString → Strtoul
unfolding skip_plus starts_with_digit is_space
strtoul str =
    let s = skip_plus (skip_spaces str) in
    let (v, rest) = read_digits 0 s in
    if not (starts_with_digit s)
    then record { val = 0; endptr = str; moved = false; erange = false }
    else if ltb v (2 ^ 32)
    then record { val = v; endptr = rest; moved = true; erange = false }
    else record { val = 2 ^ 32 - 1; endptr = rest; moved = true; erange = true }

-- `strchr(str, c) != NULL`
unfoldable pub contains : ℕ → CString → Bool
contains c [] = false
contains c (d ∷ s) = d == c || contains c s

abbrev pub shrt_max : ℕ
shrt_max = 32767

-- The checks after the call, in their order; `none` is -EINVAL.
unfoldable pub check_strtoul : Strtoul → Option ℕ
check_strtoul r =
    let val = if ltb shrt_max r.val then shrt_max else r.val in
    if r.erange
    then none
    else if not r.moved
    then none
    else if not (is_blank r.endptr)
    then none
    else if val % 2 ^ 16 == val
    then some val
    else none

unfoldable pub strtoul_hu : CString → Option ℕ
unfolding contains check_strtoul strtoul
strtoul_hu str = if contains b'-' str then none else check_strtoul (strtoul str)
