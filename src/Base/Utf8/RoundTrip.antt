-- ===== src/Base/Utf8/RoundTrip.antt =====
-- Decoding the UTF-8 of a text gives the text.
use Prim.Native.Nat.{ℕ, ◌+◌, ◌/◌, ◌%◌, ◌<◌, ◌≤◌}
use mathlib.Core.Path.{◌≡◌, refl, sym, ap, ◌∙◌}
use mathlib.Core.Logic.{inl, inr}
use mathlib.Core.Bool.{false}
use mathlib.Core.List.{List, [], ◌∷◌, ◌++◌, map, append_assoc, append-nil}
use mathlib.Core.Option.{Option, none, some}
use native.Mathlib.Omega.{arith}
use blazebee.Base.Tests.{ltb, ◌==◌, Bool-cases, ltb→lt}
use blazebee.Base.Lists.{All, All-append}
use blazebee.Base.Text.{Text, contains}
use blazebee.Base.Utf8.{
  bytes_of, as_bytes, between, decode_from, all_valid, from_utf8, replace_invalid, from_utf8_lossy,
}
use blazebee.Base.Utf8.Sequences.{
  IsScalar, ascii_bytes, two_bytes, three_bytes, four_bytes, decode_ascii, decode_two, decode_three,
  decode_four,
}

scalar_bound : (c : ℕ) → IsScalar c → c < 0x110000
scalar_bound c (inl h) = omega (arith, h)
scalar_bound c (inr h) = h.1

decode-bytes_of :
    (c : ℕ) (bs : List ℕ)
    → IsScalar c
    → decode_from between (bytes_of c ++ bs) ≡ some c ∷ decode_from between bs
decode-bytes_of c bs scalar = elim (Bool-cases (ltb c 0x80)) [
  | inl e ↦ rw (ascii_bytes c (ltb→lt c 0x80 e)) (decode_ascii c bs (ltb→lt c 0x80 e))
  | inr e ↦ elim (Bool-cases (ltb c 0x800)) [
    | inl e' ↦
        let l : 0x80 ≤ c = ground (arith, e) in
        let h = ltb→lt c 0x800 e' in rw (two_bytes c l h) (decode_two c bs l h)
    | inr e' ↦ elim (Bool-cases (ltb c 0x10000)) [
      | inl e₂ ↦
          let l : 0x800 ≤ c = ground (arith, e') in
          let h = ltb→lt c 0x10000 e₂ in rw (three_bytes c l h) (decode_three c bs l h scalar)
      | inr e₂ ↦
          let l : 0x10000 ≤ c = ground (arith, e₂) in
          rw (four_bytes c l) (decode_four c bs l (scalar_bound c scalar))
    ]
  ]
]

decode-as_bytes :
    (s : Text) (bs : List ℕ)
    → All IsScalar s
    → decode_from between (as_bytes s ++ bs) ≡ map some s ++ decode_from between bs
unfolding as_bytes
decode-as_bytes [] bs h = refl
decode-as_bytes (c ∷ s) bs h =
    ap (decode_from between) (append_assoc (bytes_of c) (as_bytes s) bs)
    ∙ decode-bytes_of c (as_bytes s ++ bs) h.0
    ∙ ap (λ t. some c ∷ t) (decode-as_bytes s bs h.1)

replace_valid : (s : Text) → replace_invalid (map some s ++ []) ≡ s
replace_valid [] = refl
replace_valid (c ∷ s) = ap (λ t. c ∷ t) (replace_valid s)

decode_nil : decode_from between [] ≡ []
unfolding decode_from
decode_nil = refl

pub from_utf8_lossy-as_bytes : (s : Text) → All IsScalar s → from_utf8_lossy (as_bytes s) ≡ s
unfolding from_utf8_lossy
from_utf8_lossy-as_bytes s h =
    ap (λ bs. replace_invalid (decode_from between bs)) (sym (append-nil (as_bytes s)))
    ∙ rw (decode-as_bytes s [] h, decode_nil) (replace_valid s)

abbrev pub prefixed : Text → Option Text → Option Text
prefixed s none = none
prefixed s (some t) = some (s ++ t)

prefixed_nil : (o : Option Text) → o ≡ prefixed [] o
prefixed_nil none = refl
prefixed_nil (some t) = refl

prefixed_cons :
    (c : ℕ) (s : Text) (o : Option Text)
    → (elim (prefixed s o) [ none ↦ none | some t ↦ some (c ∷ t) ]) ≡ prefixed (c ∷ s) o
prefixed_cons c s none = refl
prefixed_cons c s (some t) = refl

-- What follows a valid text decides, and is read by itself.
all_valid-append :
    (s : Text) (cs : List (Option ℕ)) → all_valid (map some s ++ cs) ≡ prefixed s (all_valid cs)
all_valid-append [] cs = prefixed_nil (all_valid cs)
all_valid-append (c ∷ s) cs = rw (all_valid-append s cs) (prefixed_cons c s (all_valid cs))

pub from_utf8-append :
    (s : Text) (bs : List ℕ)
    → All IsScalar s
    → from_utf8 (as_bytes s ++ bs) ≡ prefixed s (from_utf8 bs)
unfolding from_utf8
from_utf8-append s bs h =
    ap all_valid (decode-as_bytes s bs h) ∙ all_valid-append s (decode_from between bs)

-- The bytes of a scalar value are bytes.
bytes_of-lt : (c : ℕ) → IsScalar c → All (λ b. b < 256) (bytes_of c)
bytes_of-lt c scalar =
    let bound = scalar_bound c scalar in
    elim (Bool-cases (ltb c 0x80)) [
      | inl e ↦ rw (ascii_bytes c (ltb→lt c 0x80 e)) (omega (arith, ltb→lt c 0x80 e))
      | inr e ↦ elim (Bool-cases (ltb c 0x800)) [
        | inl e' ↦
            let h = ltb→lt c 0x800 e' in rw (two_bytes c (ground (arith, e)) h) (omega (arith, h))
        | inr e' ↦ elim (Bool-cases (ltb c 0x10000)) [
          | inl e₂ ↦
              let h = ltb→lt c 0x10000 e₂ in
              rw (three_bytes c (ground (arith, e')) h) (omega (arith, h))
          | inr e₂ ↦ rw (four_bytes c (ground (arith, e₂))) (omega (arith, bound))
        ]
      ]
    ]

pub as_bytes-lt : (s : Text) → All IsScalar s → All (λ b. b < 256) (as_bytes s)
unfolding as_bytes
as_bytes-lt [] h = tt
as_bytes-lt (c ∷ s) h =
    All-append (λ b. b < 256) (bytes_of c) (as_bytes s) (bytes_of-lt c h.0) (as_bytes-lt s h.1)

ne_large : (a b : ℕ) → a < 0x80 → 0x80 ≤ b → (b == a) ≡ false
ne_large a b small large = ground (arith, small, large)

-- An ASCII character stands in the bytes of a text only for itself.
bytes_of_ne : (a c : ℕ) → a < 0x80 → (c == a) ≡ false → All (λ b. (b == a) ≡ false) (bytes_of c)
bytes_of_ne a c small other = elim (Bool-cases (ltb c 0x80)) [
  | inl e ↦ rw (ascii_bytes c (ltb→lt c 0x80 e)) ((other, tt))
  | inr e ↦ elim (Bool-cases (ltb c 0x800)) [
    | inl e' ↦ rw (two_bytes c (ground (arith, e)) (ltb→lt c 0x800 e')) (
        (
          ne_large a (0xC0 + c / 64) small (omega arith),
          (ne_large a (0x80 + c % 64) small (omega arith), tt),
        ))
    | inr e' ↦ elim (Bool-cases (ltb c 0x10000)) [
      | inl e₂ ↦ rw (three_bytes c (ground (arith, e')) (ltb→lt c 0x10000 e₂)) (
          (
            ne_large a (0xE0 + c / 4096) small (omega arith),
            (
              ne_large a (0x80 + c / 64 % 64) small (omega arith),
              (ne_large a (0x80 + c % 64) small (omega arith), tt),
            ),
          ))
      | inr e₂ ↦ rw (four_bytes c (ground (arith, e₂))) (
          (
            ne_large a (0xF0 + c / 262144) small (omega arith),
            (
              ne_large a (0x80 + c / 4096 % 64) small (omega arith),
              (
                ne_large a (0x80 + c / 64 % 64) small (omega arith),
                (ne_large a (0x80 + c % 64) small (omega arith), tt),
              ),
            ),
          ))
    ]
  ]
]

pub as_bytes_ne :
    (a : ℕ) (s : Text) → a < 0x80 → contains s a ≡ false → All (λ b. (b == a) ≡ false) (as_bytes s)
unfolding as_bytes contains
as_bytes_ne a [] small h = tt
as_bytes_ne a (c ∷ s) small h =
    let other : (c == a) ≡ false = ground (arith, h) in
    let rest : contains s a ≡ false = ground (arith, h) in
    All-append (λ b. (b == a) ≡ false) (bytes_of c) (as_bytes s) (bytes_of_ne a c small other)
      (as_bytes_ne a s small rest)
