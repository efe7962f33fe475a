-- ===== src/Base/Utf8.antt =====
-- UTF-8 between code points and bytes: `str::as_bytes`, `String::from_utf8` and `String::from_utf8_lossy` of Rust's
-- standard library.
pub mod Sequences
pub mod RoundTrip
use Prim.Native.Nat.{ℕ, zero, suc, ◌+◌, ◌-◌, ◌*◌, ◌/◌, ◌%◌}
use mathlib.Core.Bool.{Bool, true, false, ◌&&◌}
use mathlib.Core.List.{List, [], ◌∷◌, ◌++◌}
use mathlib.Core.Option.{Option, none, some}
use blazebee.Base.Tests.{ltb, leb, ◌==◌, if◌then◌else◌}
use blazebee.Base.Text.{Text}

abbrev pub bytes_of : ℕ → List ℕ
bytes_of c =
    if ltb c 0x80
    then c ∷ []
    else if ltb c 0x800
    then (0xC0 + c / 64) ∷ (0x80 + c % 64) ∷ []
    else if ltb c 0x10000
    then (0xE0 + c / 4096) ∷ (0x80 + c / 64 % 64) ∷ (0x80 + c % 64) ∷ []
    else (0xF0 + c / 262144) ∷ (0x80 + c / 4096 % 64) ∷ (0x80 + c / 64 % 64) ∷ (0x80 + c % 64) ∷ []

-- `str::as_bytes`
unfoldable pub as_bytes : Text → List ℕ
as_bytes [] = []
as_bytes (c ∷ s) = bytes_of c ++ as_bytes s

-- Between two characters, or within one: how many bytes are still wanted, the bits so far, and the range of the next
-- byte.
pub data Decoding : Type 0 where
  between : Decoding
  within : ℕ → ℕ → ℕ → ℕ → Decoding

-- A first byte: what it decodes to so far, with `none` for a sequence that is no character.
abbrev pub first_byte : ℕ → Decoding × List (Option ℕ)
first_byte b =
    if ltb b 0x80
    then (between, some b ∷ [])
    else if leb 0xC2 b && leb b 0xDF
    then (within 1 (b - 0xC0) 0x80 0xBF, [])
    else if leb 0xE0 b && leb b 0xEF
    then (
      within 2 (b - 0xE0) (if b == 0xE0 then 0xA0 else 0x80) (if b == 0xED then 0x9F else 0xBF),
      [],
    )
    else if leb 0xF0 b && leb b 0xF4
    then (
      within 3 (b - 0xF0) (if b == 0xF0 then 0x90 else 0x80) (if b == 0xF4 then 0x8F else 0xBF),
      [],
    )
    else (between, none ∷ [])

abbrev pub decode_byte : Decoding → ℕ → Decoding × List (Option ℕ)
decode_byte between b = first_byte b
decode_byte (within n acc lo hi) b =
    if leb lo b && leb b hi
    then if n == 1
      then (between, some (acc * 64 + (b - 0x80)) ∷ [])
      else (within (n - 1) (acc * 64 + (b - 0x80)) 0x80 0xBF, [])
    else ((first_byte b).0, none ∷ (first_byte b).1)

-- The characters of some bytes; each longest piece that starts no character is `none`.
unfoldable pub decode_from : Decoding → List ℕ → List (Option ℕ)
decode_from between [] = []
decode_from (within n acc lo hi) [] = none ∷ []
decode_from s (b ∷ bs) = (decode_byte s b).1 ++ decode_from (decode_byte s b).0 bs

abbrev pub replace_invalid : List (Option ℕ) → Text
replace_invalid [] = []
replace_invalid (none ∷ cs) = 0xFFFD ∷ replace_invalid cs
replace_invalid (some c ∷ cs) = c ∷ replace_invalid cs

unfoldable pub from_utf8_lossy : List ℕ → Text
unfolding decode_from
from_utf8_lossy bs = replace_invalid (decode_from between bs)

abbrev pub all_valid : List (Option ℕ) → Option Text
all_valid [] = some []
all_valid (none ∷ cs) = none
all_valid (some c ∷ cs) = elim (all_valid cs) [ none ↦ none | some s ↦ some (c ∷ s) ]

unfoldable pub from_utf8 : List ℕ → Option Text
unfolding decode_from
from_utf8 bs = all_valid (decode_from between bs)
