-- ===== src/Base/Utf8/Sequences.antt =====
-- The byte sequences of UTF-8, by their length.
use Prim.Native.Nat.{ℕ, ◌+◌, ◌-◌, ◌*◌, ◌/◌, ◌%◌, ◌<◌, ◌≤◌}
use mathlib.Core.Path.{◌≡◌, refl, ap, ◌∙◌}
use mathlib.Core.Logic.{◌⊎◌, inl, inr}
use mathlib.Core.Bool.{true, ◌&&◌}
use mathlib.Core.List.{List, [], ◌∷◌, ◌++◌}
use mathlib.Core.Option.{Option, some}
use native.Mathlib.Omega.{arith}
use blazebee.Base.Tests.{leb, ◌==◌, if◌then◌else◌, Bool-cases, ==_iff}
use blazebee.Base.Utf8.{bytes_of, Decoding, between, within, first_byte, decode_from}

-- A Unicode scalar value, as every `char` of Rust is.
abbrev pub IsScalar : ℕ → Type 0
IsScalar c = (c < 0xD800) ⊎ ((0xE000 ≤ c) × (c < 0x110000))

-- A byte in the range, where more are wanted, and where it is the last.
byte_of_three :
    (acc lo hi b : ℕ) (bs : List ℕ)
    → lo ≤ b
    → b ≤ hi
    → decode_from (within 3 acc lo hi) (b ∷ bs)
      ≡ decode_from (within 2 (acc * 64 + (b - 0x80)) 0x80 0xBF) bs
unfolding decode_from
byte_of_three acc lo hi b bs l h =
    let inside : (leb lo b && leb b hi) ≡ true = ground (arith, l, h) in
    rw (decode_from, inside) refl

byte_of_two :
    (acc lo hi b : ℕ) (bs : List ℕ)
    → lo ≤ b
    → b ≤ hi
    → decode_from (within 2 acc lo hi) (b ∷ bs)
      ≡ decode_from (within 1 (acc * 64 + (b - 0x80)) 0x80 0xBF) bs
unfolding decode_from
byte_of_two acc lo hi b bs l h =
    let inside : (leb lo b && leb b hi) ≡ true = ground (arith, l, h) in
    rw (decode_from, inside) refl

last_byte :
    (acc lo hi b : ℕ) (bs : List ℕ)
    → lo ≤ b
    → b ≤ hi
    → decode_from (within 1 acc lo hi) (b ∷ bs)
      ≡ some (acc * 64 + (b - 0x80)) ∷ decode_from between bs
unfolding decode_from
last_byte acc lo hi b bs l h =
    let inside : (leb lo b && leb b hi) ≡ true = ground (arith, l, h) in
    rw (decode_from, inside) refl

first_of :
    (b : ℕ) (bs : List ℕ) (r : Decoding × List (Option ℕ))
    → first_byte b ≡ r
    → decode_from between (b ∷ bs) ≡ r.1 ++ decode_from r.0 bs
unfolding decode_from
first_of b bs r h = ap (λ (x : Decoding × List (Option ℕ)). x.1 ++ decode_from x.0 bs) h

-- The first bytes of sequences of one to four bytes.
first_ascii : (b : ℕ) → b < 0x80 → first_byte b ≡ (between, some b ∷ [])
first_ascii b h = ground (arith, h)

first_two : (b : ℕ) → 0xC2 ≤ b → b ≤ 0xDF → first_byte b ≡ (within 1 (b - 0xC0) 0x80 0xBF, [])
first_two b l h = ground (arith, l, h)

abbrev low_three : ℕ → ℕ
low_three b = if b == 0xE0 then 0xA0 else 0x80

abbrev high_three : ℕ → ℕ
high_three b = if b == 0xED then 0x9F else 0xBF

first_three :
    (b : ℕ)
    → 0xE0 ≤ b
    → b ≤ 0xEF
    → first_byte b ≡ (within 2 (b - 0xE0) (low_three b) (high_three b), [])
first_three b l h = ground (arith, l, h)

abbrev low_four : ℕ → ℕ
low_four b = if b == 0xF0 then 0x90 else 0x80

abbrev high_four : ℕ → ℕ
high_four b = if b == 0xF4 then 0x8F else 0xBF

first_four :
    (b : ℕ)
    → 0xF0 ≤ b
    → b ≤ 0xF4
    → first_byte b ≡ (within 3 (b - 0xF0) (low_four b) (high_four b), [])
first_four b l h = ground (arith, l, h)

-- The bytes of a character by its size.
pub ascii_bytes : (c : ℕ) → c < 0x80 → bytes_of c ≡ c ∷ []
ascii_bytes c h = ground (arith, h)

pub two_bytes : (c : ℕ) → 0x80 ≤ c → c < 0x800 → bytes_of c ≡ (0xC0 + c / 64) ∷ (0x80 + c % 64) ∷ []
two_bytes c l h = ground (arith, l, h)

pub three_bytes :
    (c : ℕ)
    → 0x800 ≤ c
    → c < 0x10000
    → bytes_of c ≡ (0xE0 + c / 4096) ∷ (0x80 + c / 64 % 64) ∷ (0x80 + c % 64) ∷ []
three_bytes c l h = ground (arith, l, h)

pub four_bytes :
    (c : ℕ)
    → 0x10000 ≤ c
    → bytes_of c
      ≡ (0xF0 + c / 262144) ∷ (0x80 + c / 4096 % 64) ∷ (0x80 + c / 64 % 64) ∷ (0x80 + c % 64) ∷ []
four_bytes c l = ground (arith, l)

pub decode_ascii :
    (c : ℕ) (bs : List ℕ)
    → c < 0x80
    → decode_from between (c ∷ bs) ≡ some c ∷ decode_from between bs
decode_ascii c bs h = first_of c bs (between, some c ∷ []) (first_ascii c h)

pub decode_two :
    (c : ℕ) (bs : List ℕ)
    → 0x80 ≤ c
    → c < 0x800
    → decode_from between ((0xC0 + c / 64) ∷ (0x80 + c % 64) ∷ bs) ≡ some c ∷ decode_from between bs
decode_two c bs l h =
    first_of (0xC0 + c / 64) ((0x80 + c % 64) ∷ bs) _
      (first_two (0xC0 + c / 64) (omega arith) (omega arith))
    ∙ last_byte _ 0x80 0xBF (0x80 + c % 64) bs (omega arith) (omega arith)
    ∙ ap (λ x. some x ∷ decode_from between bs) (omega arith)

-- The ranges of the second bytes hold what a scalar value gives, and keep out what none gives.
three_low : (c : ℕ) → 0x800 ≤ c → low_three (0xE0 + c / 4096) ≤ 0x80 + c / 64 % 64
three_low c l = elim (Bool-cases ((0xE0 + c / 4096) == 0xE0)) [
  | inl e ↦ rw e (omega (arith, (==_iff (0xE0 + c / 4096) 0xE0).0 e))
  | inr e ↦ rw e (omega arith)
]

three_high : (c : ℕ) → c < 0x10000 → IsScalar c → 0x80 + c / 64 % 64 ≤ high_three (0xE0 + c / 4096)
three_high c h scalar = elim (Bool-cases ((0xE0 + c / 4096) == 0xED)) [
  | inr e ↦ rw e (omega arith)
  | inl e ↦
      let edge = (==_iff (0xE0 + c / 4096) 0xED).0 e in
      elim scalar [
        | inl below ↦ rw e (omega (arith, edge, below))
        | inr above ↦ rw e (omega (arith, edge, above.0))
      ]
]

four_low : (c : ℕ) → 0x10000 ≤ c → low_four (0xF0 + c / 262144) ≤ 0x80 + c / 4096 % 64
four_low c l = elim (Bool-cases ((0xF0 + c / 262144) == 0xF0)) [
  | inl e ↦ rw e (omega (arith, (==_iff (0xF0 + c / 262144) 0xF0).0 e))
  | inr e ↦ rw e (omega arith)
]

four_high : (c : ℕ) → c < 0x110000 → 0x80 + c / 4096 % 64 ≤ high_four (0xF0 + c / 262144)
four_high c h = elim (Bool-cases ((0xF0 + c / 262144) == 0xF4)) [
  | inl e ↦ rw e (omega (arith, h, (==_iff (0xF0 + c / 262144) 0xF4).0 e))
  | inr e ↦ rw e (omega arith)
]

pub decode_three :
    (c : ℕ) (bs : List ℕ)
    → 0x800 ≤ c
    → c < 0x10000
    → IsScalar c
    → decode_from between ((0xE0 + c / 4096) ∷ (0x80 + c / 64 % 64) ∷ (0x80 + c % 64) ∷ bs)
      ≡ some c ∷ decode_from between bs
decode_three c bs l h scalar =
    first_of (0xE0 + c / 4096) _ _ (first_three (0xE0 + c / 4096) (omega arith) (omega arith))
    ∙ byte_of_two _ (low_three (0xE0 + c / 4096)) (high_three (0xE0 + c / 4096))
        (0x80 + c / 64 % 64) ((0x80 + c % 64) ∷ bs) (three_low c l) (three_high c h scalar)
    ∙ last_byte _ 0x80 0xBF (0x80 + c % 64) bs (omega arith) (omega arith)
    ∙ ap (λ x. some x ∷ decode_from between bs) (omega arith)

pub decode_four :
    (c : ℕ) (bs : List ℕ)
    → 0x10000 ≤ c
    → c < 0x110000
    → decode_from between
        ((0xF0 + c / 262144) ∷ (0x80 + c / 4096 % 64) ∷ (0x80 + c / 64 % 64) ∷ (0x80 + c % 64) ∷ bs)
      ≡ some c ∷ decode_from between bs
decode_four c bs l h =
    first_of (0xF0 + c / 262144) _ _ (first_four (0xF0 + c / 262144) (omega arith) (omega arith))
    ∙ byte_of_three _ (low_four (0xF0 + c / 262144)) (high_four (0xF0 + c / 262144))
        (0x80 + c / 4096 % 64) ((0x80 + c / 64 % 64) ∷ (0x80 + c % 64) ∷ bs) (four_low c l)
        (four_high c h)
    ∙ byte_of_two _ 0x80 0xBF (0x80 + c / 64 % 64) ((0x80 + c % 64) ∷ bs) (omega arith)
        (omega arith)
    ∙ last_byte _ 0x80 0xBF (0x80 + c % 64) bs (omega arith) (omega arith)
    ∙ ap (λ x. some x ∷ decode_from between bs) (omega arith)
