-- ===== src/Collectors/Procfs.antt =====
-- src/core/collectors/procfs.rs: how /proc files are cut into lines, fields and numbers, with the `str` methods that it
-- takes from the standard library. A file's text is code points; a mount's field is bytes.
pub mod Mounts
pub mod Numbers
pub mod Rows
pub mod Reading
use blazebee.Base.{
  ℕ, zero, suc, ◌+◌, ◌-◌, ◌*◌, ◌%◌, ◌^◌, ◌<◌, ◌≤◌, ◌≡◌, min, Bool, true, false, not, ◌&&◌, ◌||◌,
  Option, none, some, List, [], ◌∷◌, ◌++◌, ltb, leb, ◌==◌, if◌then◌else◌, Result, ok, err, arith,
  Option-cases, Bool-cases, inl, inr,
}
use blazebee.Base.Text.{Text, codes, contains, is_empty}
use blazebee.Base.Utf8.{as_bytes, from_utf8_lossy}
use blazebee.Framer.{Bytes}
use blazebee.Collectors.Error.{CollectorError, parse, missing}

abbrev pub cons_first : ℕ → List Text → List Text
cons_first c [] = (c ∷ []) ∷ []
cons_first c (l ∷ ls) = (c ∷ l) ∷ ls

abbrev starts_line_feed : Text → Bool
starts_line_feed [] = false
starts_line_feed (c ∷ s) = c == 10

-- `str::lines`: a line ends at "\n" or "\r\n", and the last one may lack its end.
unfoldable pub lines : Text → List Text
lines [] = []
lines (c ∷ s) =
    let rest = lines s in
    if c == 10
    then [] ∷ rest
    else if (c == 13) && starts_line_feed s
    then rest
    else cons_first c rest

abbrev pub is_ascii_whitespace : ℕ → Bool
is_ascii_whitespace c = c == 32 || c == 9 || c == 10 || c == 12 || c == 13

unfoldable pub pieces : Text → List Text
pieces [] = [] ∷ []
pieces (c ∷ s) =
    let rest = pieces s in if is_ascii_whitespace c then [] ∷ rest else cons_first c rest

abbrev pub non_empty : List Text → List Text
non_empty [] = []
non_empty (p ∷ ps) = let rest = non_empty ps in if is_empty p then rest else p ∷ rest

-- `fields`, which is `split_ascii_whitespace`
unfoldable pub fields : Text → List Text
fields line = non_empty (pieces line)

unfoldable pub digits_value : ℕ → Text → Option ℕ
digits_value acc [] = some acc
digits_value acc (c ∷ s) =
    let rest = digits_value (acc * 10 + (c - b'0')) s in
    if leb b'0' c && leb c b'9' then rest else none

abbrev pub strip_plus : Text → Text
strip_plus [] = []
strip_plus (c ∷ s) = if c == b'+' then s else c ∷ s

-- `str::parse` of an unsigned integer of `w` bits.
unfoldable pub parse_uint : ℕ → Text → Option ℕ
parse_uint w s = if is_empty (strip_plus s) then none else elim (digits_value 0 (strip_plus s)) [
  | none ↦ none
  | some n ↦ if ltb n (2 ^ w) then some n else none
]

-- `parse` at a `w`-bit integer
unfoldable pub parse_field : ℕ → Text → Text → Text → Result CollectorError ℕ
parse_field w token path what = elim (parse_uint w token) [
  | none ↦ err (parse path what (codes "invalid value '" ++ token ++ codes "'"))
  | some n ↦ ok n
]

-- `next_field`, with the fields that are left.
unfoldable pub next_field : ℕ → List Text → Text → Text → Result CollectorError (ℕ × List Text)
next_field w [] path what = err (missing path what)
next_field w (token ∷ rest) path what = elim (parse_field w token path what) [
  | err e ↦ err e
  | ok n ↦ ok (n, rest)
]

abbrev pub is_octal : ℕ → Bool
is_octal b = leb b'0' b && leb b b'7'

-- The value of three octal digits, in the wrapping arithmetic of a u8.
abbrev pub octal : ℕ → ℕ → ℕ → ℕ
octal x y z = ((x - b'0') * 64 + (y - b'0') * 8 + (z - b'0')) % 2 ^ 8

-- The bytes that `unescape_mount_field` decodes.
unfoldable pub unescape_bytes : Bytes → Bytes
unescape_bytes [] = []
unescape_bytes (b ∷ []) = b ∷ []
unescape_bytes (b ∷ x ∷ []) = b ∷ x ∷ []
unescape_bytes (b ∷ x ∷ y ∷ []) = b ∷ x ∷ y ∷ []
unescape_bytes (b ∷ x ∷ y ∷ z ∷ s) =
    let after = unescape_bytes s in
    let next = unescape_bytes (x ∷ y ∷ z ∷ s) in
    if b == b'\\' && (is_octal x && (is_octal y && is_octal z))
    then octal x y z ∷ after
    else b ∷ next

unfoldable pub unescape_mount_field : Text → Text
unescape_mount_field s =
    if not (contains s b'\\') then s else from_utf8_lossy (unescape_bytes (as_bytes s))

pub parse_uint-lt : (w : ℕ) (s : Text) (n : ℕ) → parse_uint w s ≡ some n → n < 2 ^ w
unfolding parse_uint
parse_uint-lt w s n h = ground arith
