-- ===== src/Settings/Expand.antt =====
-- src/config/env.rs: `${NAME}` in a text of the configuration. Texts are code points; the offsets are bytes.
-- The loop runs on fuel, one more than the text's length, which suffices.
pub mod Steps
pub mod Segments
pub mod Substitution
use blazebee.Base.{
  ℕ, zero, suc, ◌+◌, ◌<◌, ◌≤◌, ◌⊎◌, ◌≡◌, refl, Bool, true, false, not, ◌&&◌, ◌||◌, Option, none,
  some, [], ◌∷◌, ◌++◌, length, leb, ◌==◌, if◌then◌else◌, is_some, Result, ok, err, arith,
  Option-cases, inl, inr, Bool-cases,
}
use blazebee.Base.Text.{Text, codes, contains, is_empty, utf8_len}

pub data EnvError : Type 0 where
  unset : Text → EnvError
  malformed : ℕ → EnvError

-- What stands before the first `c`, and after it.
unfoldable pub split_at : ℕ → Text → Option (Text × Text)
split_at c [] = none
split_at c (x ∷ s) =
    if x == c
    then some ([], s)
    else elim (split_at c s) [ none ↦ none | some parts ↦ some (x ∷ parts.0, parts.1) ]

unfoldable pub strip_prefix : Text → Text → Option Text
strip_prefix [] s = some s
strip_prefix (x ∷ p) [] = none
strip_prefix (x ∷ p) (y ∷ s) = let rest = strip_prefix p s in if x == y then rest else none

abbrev pub is_name_char : ℕ → Bool
is_name_char c =
    (leb b'0' c && leb c b'9')
    || (leb b'A' c && leb c b'Z')
    || (leb b'a' c && leb c b'z')
    || c == b'_'

abbrev pub all_name : Text → Bool
all_name [] = true
all_name (c ∷ s) = is_name_char c && all_name s

abbrev pub Expanded : Type 0
Expanded = Option (Result EnvError Text)

-- A round of the loop: it returns, or goes on with the rest, the offset and the output.
pub data Round : Type 0 where
  done : Result EnvError Text → Round
  again : Text → ℕ → Text → Round

module _ (lookup : Text → Option Text) where
  -- After "${", which stands at an offset.
  unfoldable pub reference : Text → ℕ → Text → Round
  reference after at out = elim (split_at b'}' after) [
    | none ↦ done (err (malformed at))
    | some inner ↦ elim (is_empty inner.0 || not (all_name inner.0)) [
      | true ↦ done (err (malformed at))
      | false ↦ elim (lookup inner.0) [
        | none ↦ done (err (unset inner.0))
        | some value ↦ again inner.1 (at + 2 + utf8_len inner.0 + 1) (out ++ value)
      ]
    ]
  ]

  -- After a `$`, which stands at an offset.
  unfoldable pub at_dollar : Text → ℕ → Text → Round
  at_dollar s at out = elim (strip_prefix (codes "$${") (b'$' ∷ s)) [
    | some after ↦ again after (at + 3) (out ++ codes "${")
    | none ↦ elim (strip_prefix (codes "${") (b'$' ∷ s)) [
      | some after ↦ reference after at out
      | none ↦ again s (at + 1) (out ++ codes "$")
    ]
  ]

  unfoldable pub round : Text → ℕ → Text → Round
  round rest offset out = elim (split_at b'$' rest) [
    | none ↦ done (ok (out ++ rest))
    | some parts ↦ at_dollar parts.1 (offset + utf8_len parts.0) (out ++ parts.0)
  ]

  -- The loop; `none` is the end of the fuel.
  unfoldable pub expand_loop : ℕ → Text → ℕ → Text → Expanded
  expand_loop zero rest offset out = none
  expand_loop (suc n) rest offset out = elim (round rest offset out) [
    | done r ↦ some r
    | again rest' offset' out' ↦ expand_loop n rest' offset' out'
  ]

  unfoldable pub expand : Text → Expanded
  expand input =
      if not (contains input b'$')
      then some (ok input)
      else expand_loop (suc (length input)) input 0 []

pub split_at-length :
    (c : ℕ) (s : Text) (parts : Text × Text)
    → split_at c s ≡ some parts
    → length parts.0 + length parts.1 < length s
unfolding split_at
split_at-length c [] parts h = cc
split_at-length c (x ∷ s) parts h = elim (Bool-cases (x == c)) [
  | inl e ↦ ground (arith, rw (split_at, e) at h)
  | inr e ↦ elim (Option-cases (split_at c s)) [
    | inl stop ↦ cc (rw (split_at, e, stop) at h)
    | inr (more, found) ↦
        ground (arith, rw (split_at, e, found) at h, split_at-length c s more found)
  ]
]

pub strip_prefix-length :
    (p s rest : Text) → strip_prefix p s ≡ some rest → length p + length rest ≡ length s
unfolding strip_prefix
strip_prefix-length [] s rest h = ground arith
strip_prefix-length (x ∷ p) [] rest h = cc
strip_prefix-length (x ∷ p) (y ∷ s) rest h = elim (Bool-cases (x == y)) [
  | inl e ↦ omega (arith, strip_prefix-length p s rest (rw (strip_prefix, e) at h))
  | inr e ↦ cc (rw (strip_prefix, e) at h)
]

pub Round-cases :
    (r : Round)
    → ((e : Result EnvError Text) × (r ≡ done e))
      ⊎ ((rest : Text) × (offset : ℕ) × (out : Text) × (r ≡ again rest offset out))
Round-cases (done e) = inl (e, refl)
Round-cases (again rest offset out) = inr (rest, offset, out, refl)

-- A round that goes on has dropped a character or more.
abbrev pub Drops : ℕ → Round → Type 0
Drops n (done r) = Unit
Drops n (again rest offset out) = length rest < n

module _ (lookup : Text → Option Text) where
  reference-Drops :
      (after : Text) (at : ℕ) (out : Text) → Drops (length after) (reference lookup after at out)
  unfolding reference
  reference-Drops after at out = elim (Option-cases (split_at b'}' after)) [
    | inl e ↦ rw (reference, e) tt
    | inr (inner, e) ↦ elim (Bool-cases (is_empty inner.0 || not (all_name inner.0))) [
      | inl bad ↦ rw (reference, e, bad) tt
      | inr fine ↦ elim (Option-cases (lookup inner.0)) [
        | inl e' ↦ rw (reference, e, fine, e') tt
        | inr (value, e') ↦
            rw (reference, e, fine, e') (omega (arith, split_at-length b'}' after inner e))
      ]
    ]
  ]

  Drops-mono : (m n : ℕ) (r : Round) → m ≤ n → Drops m r → Drops n r
  Drops-mono m n (done r) h d = tt
  Drops-mono m n (again rest offset out) h d = omega (arith, d)

  at_dollar-Drops :
      (s : Text) (at : ℕ) (out : Text) → Drops (suc (length s)) (at_dollar lookup s at out)
  unfolding at_dollar
  at_dollar-Drops s at out = elim (Option-cases (strip_prefix (codes "$${") (b'$' ∷ s))) [
    | inr (after, e) ↦ rw (at_dollar, e) (omega (arith, strip_prefix-length _ _ after e))
    | inl e ↦ elim (Option-cases (strip_prefix (codes "${") (b'$' ∷ s))) [
      | inl e' ↦ rw (at_dollar, e, e') (omega arith)
      | inr (after, e') ↦
          rw (at_dollar, e, e')
            (Drops-mono (length after) (suc (length s)) (reference lookup after at out)
              (omega (arith, strip_prefix-length _ _ after e')) (reference-Drops after at out))
    ]
  ]

  pub round-Drops :
      (rest : Text) (offset : ℕ) (out : Text) → Drops (length rest) (round lookup rest offset out)
  unfolding round
  round-Drops rest offset out = elim (Option-cases (split_at b'$' rest)) [
    | inl e ↦ rw (round, e) tt
    | inr (parts, e) ↦
        rw (round, e)
          (Drops-mono (suc (length parts.1)) (length rest) (at_dollar lookup parts.1 _ _)
            (omega (arith, split_at-length b'$' rest parts e)) (at_dollar-Drops parts.1 _ _))
  ]

  -- The fuel suffices when it exceeds the length of what is left.
  expand_loop-total :
      (n : ℕ) (rest : Text) (offset : ℕ) (out : Text)
      → length rest < n
      → is_some (expand_loop lookup n rest offset out) ≡ true
  unfolding expand_loop
  expand_loop-total zero rest offset out h = ground (arith, h)
  expand_loop-total (suc n) rest offset out h = elim (Round-cases (round lookup rest offset out)) [
    | inl (r, e) ↦ rw (expand_loop, e) refl
    | inr (rest', offset', out', e) ↦
        let shorter = rw e at (round-Drops rest offset out) in
        rw (expand_loop, e) (expand_loop-total n rest' offset' out' (omega (arith, shorter)))
  ]

  -- Every text is expanded or refused; the loop ends.
  pub expand-total : (input : Text) → is_some (expand lookup input) ≡ true
  unfolding expand
  expand-total input = elim (Bool-cases (contains input b'$')) [
    | inl e ↦ rw e (expand_loop-total (suc (length input)) input 0 [] (omega arith))
    | inr e ↦ rw e refl
  ]
