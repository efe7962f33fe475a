-- ===== src/Settings/Expand/Segments.antt =====
-- `expand` of src/config/env.rs against a text that is written in parts: what stands for itself, and references.
use blazebee.Base.{
  ℕ, ◌≡◌, ◌⊎◌, refl, sym, ap, subst, Bool, true, false, ◌&&◌, ◌==◌, ==_iff, Option, none, some,
  List, [], ◌∷◌, ◌++◌, Result, ok, err, ◌>>=◌, if◌then◌else◌, arith, Bool-cases, inl, inr,
}
use blazebee.Base.Text.{Text, codes, is_empty}
use blazebee.Settings.Expand.{EnvError, unset, strip_prefix, all_name}

pub data Segment : Type 0 where
  literal : Text → Segment
  reference : Text → Segment

abbrev pub begins_brace : Text → Bool
begins_brace [] = false
begins_brace (c ∷ s) = c == b'{'

-- A dollar sign is doubled before a brace.
unfoldable pub escape : Text → Text
escape [] = []
escape (c ∷ s) =
    let rest = escape s in if c == b'$' && begins_brace s then b'$' ∷ b'$' ∷ rest else c ∷ rest

unfoldable pub write : List Segment → Text
write [] = []
write (literal l ∷ ss) = escape l ++ write ss
write (reference n ∷ ss) = codes "${" ++ (n ++ (b'}' ∷ write ss))

-- What the parts stand for, or the first variable that is not set.
unfoldable pub value_of : (Text → Option Text) → List Segment → Result EnvError Text
value_of lookup [] = ok []
value_of lookup (literal l ∷ ss) = value_of lookup ss >>= λ t. ok (l ++ t)
value_of lookup (reference n ∷ ss) = elim (lookup n) [
  | none ↦ err (unset n)
  | some v ↦ value_of lookup ss >>= λ t. ok (v ++ t)
]

abbrev pub ends_dollar : Text → Bool
ends_dollar [] = false
ends_dollar (c ∷ []) = c == b'$'
ends_dollar (c ∷ d ∷ s) = ends_dollar (d ∷ s)

-- Names are names, and no literal but the last part ends in a dollar sign.
abbrev pub AreWritten : List Segment → Type 0
AreWritten [] = Unit
AreWritten (literal l ∷ []) = Unit
AreWritten (literal l ∷ s ∷ ss) = (ends_dollar l ≡ false) × AreWritten (s ∷ ss)
AreWritten (reference n ∷ ss) = (is_empty n ≡ false) × (all_name n ≡ true) × AreWritten ss

abbrev pub Safe : Text → Text → Type 0
Safe l t = (ends_dollar l ≡ false) ⊎ (t ≡ [])

pub Safe-drop : (c : ℕ) (s t : Text) → Safe (c ∷ s) t → Safe s t
Safe-drop c [] t h = inl refl
Safe-drop c (d ∷ s) t h = h

escape-cons : (c : ℕ) (s : Text) → (rest : Text) × (escape (c ∷ s) ≡ c ∷ rest)
unfolding escape
escape-cons c s = elim (Bool-cases (c == b'$' && begins_brace s)) [
  | inl e ↦ (b'$' ∷ escape s, rw (escape, e) (ap (λ x. x ∷ b'$' ∷ escape s) (ground (arith, e))))
  | inr e ↦ (escape s, rw (escape, e) refl)
]

-- What follows a dollar sign that is not doubled makes neither form with it.
no_reference :
    (x : ℕ) (s : Text) → (x == b'{') ≡ false → strip_prefix (codes "${") (b'$' ∷ x ∷ s) ≡ none
unfolding strip_prefix
no_reference x s h = ground (arith, h)

no_escape_char :
    (x : ℕ) (s : Text) → (x == b'$') ≡ false → strip_prefix (codes "$${") (b'$' ∷ x ∷ s) ≡ none
unfolding strip_prefix
no_escape_char x s h = ground (arith, h)

no_escape_next :
    (y : ℕ) (s : Text)
    → (y == b'{') ≡ false
    → strip_prefix (codes "$${") (b'$' ∷ b'$' ∷ y ∷ s) ≡ none
unfolding strip_prefix
no_escape_next y s h = ground (arith, h)

no_escape_end : strip_prefix (codes "$${") (b'$' ∷ b'$' ∷ []) ≡ none
unfolding strip_prefix
no_escape_end = refl

no_escape_two :
    (s t : Text)
    → Safe (b'$' ∷ s) t
    → strip_prefix (codes "$${") (b'$' ∷ (escape (b'$' ∷ s) ++ t)) ≡ none
unfolding escape
no_escape_two [] t (inl h) = cc h
no_escape_two [] t (inr h) = rw h no_escape_end
no_escape_two (y ∷ s) t h = elim (Bool-cases (y == b'{')) [
  | inl e ↦ rw (escape, e) (no_escape_next b'$' (escape (y ∷ s) ++ t) refl)
  | inr e ↦
      let (rest, head) = escape-cons y s in
      rw (escape, e) (rw head (no_escape_next y (rest ++ t) e))
]

pub no_escape :
    (x : ℕ) (s t : Text)
    → (x == b'{') ≡ false
    → Safe (x ∷ s) t
    → strip_prefix (codes "$${") (b'$' ∷ (escape (x ∷ s) ++ t)) ≡ none
no_escape x s t h safe = elim (Bool-cases (x == b'$')) [
  | inl e ↦
      let same : b'$' ≡ x = sym ((==_iff x b'$').0 e) in
      subst (λ c. Safe (c ∷ s) t → strip_prefix (codes "$${") (b'$' ∷ (escape (c ∷ s) ++ t)) ≡ none)
        same (no_escape_two s t) safe
  | inr e ↦ let (rest, head) = escape-cons x s in rw head (no_escape_char x (rest ++ t) e)
]

pub no_reference_escape :
    (x : ℕ) (s t : Text)
    → (x == b'{') ≡ false
    → strip_prefix (codes "${") (b'$' ∷ (escape (x ∷ s) ++ t)) ≡ none
no_reference_escape x s t h =
    let (rest, head) = escape-cons x s in rw head (no_reference x (rest ++ t) h)

pub no_reference_end : strip_prefix (codes "${") (b'$' ∷ []) ≡ none
unfolding strip_prefix
no_reference_end = refl

pub no_escape_alone : strip_prefix (codes "$${") (b'$' ∷ []) ≡ none
unfolding strip_prefix
no_escape_alone = refl
