-- ===== src/Collectors/Parsing.antt =====
-- What else src/core/collectors reads by `str::parse` and `from_str_radix`: other number types than the unsigned ones,
-- whole files, and hexadecimal.
use blazebee.Base.{
  ℕ, zero, suc, ◌+◌, ◌-◌, ◌*◌, ◌^◌, ◌&&◌, Option, none, some, List, [], ◌∷◌, ◌++◌, ltb, leb, ◌==◌,
  if◌then◌else◌, Result, ok, err, ok_or,
}
use blazebee.Base.Text.{Text, codes, is_empty, is_whitespace, trim_end_matches}
use blazebee.Error.{IoError}
use blazebee.Collectors.Error.{CollectorError, read, parse, missing}
use blazebee.Collectors.Procfs.{digits_value, strip_plus, parse_uint, parse_field}

-- A signed integer; `negsuc n` is -(n + 1).
pub data ℤ : Type 0 where
  pos : ℕ → ℤ
  negsuc : ℕ → ℤ

abbrev negated : ℕ → ℤ
negated zero = pos 0
negated (suc n) = negsuc n

-- `str::parse` of a signed integer of `w` bits.
unfoldable pub parse_int : ℕ → Text → Option ℤ
parse_int w [] = none
parse_int w (c ∷ s) =
    if c == b'-'
    then if is_empty s then none else elim (digits_value 0 s) [
      | none ↦ none
      | some n ↦ if leb n (2 ^ (w - 1)) then some (negated n) else none
    ]
    else elim (parse_uint (w - 1) (c ∷ s)) [ none ↦ none | some n ↦ some (pos n) ]

abbrev hex_digit : ℕ → Option ℕ
hex_digit c =
    if leb b'0' c && leb c b'9'
    then some (c - b'0')
    else if leb b'a' c && leb c b'f'
    then some (c - b'a' + 10)
    else if leb b'A' c && leb c b'F'
    then some (c - b'A' + 10)
    else none

unfoldable pub hex_value : ℕ → Text → Option ℕ
hex_value acc [] = some acc
hex_value acc (c ∷ s) = elim (hex_digit c) [ none ↦ none | some d ↦ hex_value (acc * 16 + d) s ]

-- `u64::from_str_radix(token, 16)`
unfoldable pub parse_hex : Text → Option ℕ
parse_hex s = if is_empty (strip_plus s) then none else elim (hex_value 0 (strip_plus s)) [
  | none ↦ none
  | some n ↦ if ltb n (2 ^ 64) then some n else none
]

-- The error of a hexadecimal field.
unfoldable pub hex_field : Text → Text → Text → Result CollectorError ℕ
hex_field path what token =
    ok_or (parse_hex token) (parse path what (codes "invalid hex value '" ++ token ++ codes "'"))

-- `parse` and `next_field` at another type than the unsigned integers.
module _ {A : Type 0} (from_str : Text → Option A) where
  unfoldable pub parse_with : Text → Text → Text → Result CollectorError A
  parse_with token path what =
      ok_or (from_str token) (parse path what (codes "invalid value '" ++ token ++ codes "'"))

  unfoldable pub next_with : List Text → Text → Text → Result CollectorError (A × List Text)
  next_with [] path what = err (missing path what)
  next_with (token ∷ rest) path what = elim (parse_with token path what) [
    | err e ↦ err e
    | ok a ↦ ok (a, rest)
  ]

-- What a file holds, or why it cannot be read.
abbrev pub Files : Type 0
Files = Text → Result IoError Text

abbrev trimmed : Result IoError Text → Result IoError Text
trimmed (err e) = err e
trimmed (ok s) = ok (trim_end_matches is_whitespace s)

unfoldable pub read_trimmed : Files → Text → Result IoError Text
read_trimmed files path = trimmed (files path)

-- `read_number` at a `w`-bit unsigned integer
unfoldable pub read_number : Files → ℕ → Text → Text → Result CollectorError ℕ
read_number files w path what = elim (read_trimmed files path) [
  | err e ↦ err (read path e)
  | ok text ↦ parse_field w text path what
]

-- What the collectors use of `f64`: `str::parse`, zero, the difference, and the floor as an i64.
pub record F64 (F : Type 0) : Type 0 where
  pub from_str : Text → Option F
  pub zero_value : F
  pub sub : F → F → F
  pub floor_i64 : F → ℤ

-- What they compute with `f64`: `as f64` of an i64, and the quotient. 1000.0 is the number 1000 as an f64.
pub record Reals (F : Type 0) : Type 0 where
  pub of_i64 : ℤ → F
  pub div : F → F → F

abbrev pub per_thousand : {F : Type 0} → Reals F → F → F
per_thousand reals x = reals.div x (reals.of_i64 (pos 1000))
