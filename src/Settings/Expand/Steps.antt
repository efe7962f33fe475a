-- ===== src/Settings/Expand/Steps.antt =====
-- One round of the loop of `expand` in src/config/env.rs, by what the text begins with.
use blazebee.Base.{
  ℕ, zero, suc, ◌+◌, ◌<◌, ◌≡◌, refl, sym, ap, ◌∙◌, true, false, ◌==◌, Option, none, some, [], ◌∷◌,
  ◌++◌, append_assoc, append-nil, length, ok, err, arith, Bool-cases, Option-cases, inl, inr,
}
use blazebee.Base.Text.{Text, codes, contains, is_empty, utf8_len, utf8_width}
use blazebee.Settings.Expand.{
  unset, Expanded, Round, done, again, Round-cases, split_at, strip_prefix, all_name, reference,
  at_dollar, round, round-Drops, expand_loop, expand,
}

split_at_absent : (c : ℕ) (s : Text) → contains s c ≡ false → split_at c s ≡ none
unfolding split_at contains
split_at_absent c [] h = refl
split_at_absent c (x ∷ s) h =
    let other : (x == c) ≡ false = ground (arith, h) in
    let rest : contains s c ≡ false = ground (arith, h) in
    rw (split_at, other, split_at_absent c s rest) refl

module _ (lookup : Text → Option Text) where
  -- Any fuel that exceeds the length gives the same.
  expand_loop-fuel :
      (n m : ℕ) (rest : Text) (offset : ℕ) (out : Text)
      → length rest < n
      → length rest < m
      → expand_loop lookup n rest offset out ≡ expand_loop lookup m rest offset out
  unfolding expand_loop
  expand_loop-fuel zero m rest offset out h k = ground (arith, h)
  expand_loop-fuel (suc n) zero rest offset out h k = ground (arith, k)
  expand_loop-fuel (suc n) (suc m) rest offset out h k =
      elim (Round-cases (round lookup rest offset out)) [
        | inl (r, e) ↦ rw (expand_loop, e) refl
        | inr (rest', offset', out', e) ↦
            let shorter = rw e at (round-Drops lookup rest offset out) in
            rw (expand_loop, e)
              (expand_loop-fuel n m rest' offset' out' (omega (arith, shorter))
                (omega (arith, shorter)))
      ]

  -- The loop with fuel that suffices.
  abbrev pub meaning : Text → ℕ → Text → Expanded
  meaning rest offset out = expand_loop lookup (suc (length rest)) rest offset out

  -- What follows a round.
  abbrev after_round : Round → Expanded
  after_round (done r) = some r
  after_round (again rest offset out) = meaning rest offset out

  meaning-round :
      (rest : Text) (offset : ℕ) (out : Text)
      → meaning rest offset out ≡ after_round (round lookup rest offset out)
  unfolding expand_loop
  meaning-round rest offset out = elim (Round-cases (round lookup rest offset out)) [
    | inl (r, e) ↦ rw (expand_loop, e) refl
    | inr (rest', offset', out', e) ↦
        let shorter = rw e at (round-Drops lookup rest offset out) in
        rw (expand_loop, e)
          (expand_loop-fuel (length rest) (suc (length rest')) rest' offset' out'
            (omega (arith, shorter)) (omega arith))
  ]

  pub meaning-nil : (offset : ℕ) (out : Text) → meaning [] offset out ≡ some (ok out)
  unfolding expand_loop round split_at
  meaning-nil offset out = ap (λ t. some (ok t)) (append-nil out)

  round-char :
      (c : ℕ) (s : Text) (offset : ℕ) (out : Text)
      → (c == b'$') ≡ false
      → round lookup (c ∷ s) offset out ≡ round lookup s (offset + utf8_width c) (out ++ (c ∷ []))
  unfolding round split_at utf8_len
  round-char c s offset out h = elim (Option-cases (split_at b'$' s)) [
    | inl e ↦ rw (round, split_at, h, e) (ap (λ t. done (ok t)) (sym (append_assoc out (c ∷ []) s)))
    | inr (parts, e) ↦
        rw (round, split_at, h, e)
          (ap (λ t. at_dollar lookup parts.1 t (out ++ (c ∷ parts.0))) (omega arith)
            ∙ ap (λ t. at_dollar lookup parts.1 (offset + utf8_width c + utf8_len parts.0) t)
                (sym (append_assoc out (c ∷ []) parts.0)))
  ]

  -- A character that is no `$` is passed on.
  pub meaning-char :
      (c : ℕ) (s : Text) (offset : ℕ) (out : Text)
      → (c == b'$') ≡ false
      → meaning (c ∷ s) offset out ≡ meaning s (offset + utf8_width c) (out ++ (c ∷ []))
  meaning-char c s offset out h =
      meaning-round (c ∷ s) offset out
      ∙ ap after_round (round-char c s offset out h)
      ∙ sym (meaning-round s (offset + utf8_width c) (out ++ (c ∷ [])))

  round-dollar :
      (s : Text) (offset : ℕ) (out : Text)
      → round lookup (b'$' ∷ s) offset out ≡ at_dollar lookup s offset out
  unfolding round split_at utf8_len
  round-dollar s offset out =
      ap (λ t. at_dollar lookup s t (out ++ [])) (omega arith)
      ∙ ap (λ t. at_dollar lookup s offset t) (append-nil out)

  pub meaning-escape :
      (s : Text) (offset : ℕ) (out : Text)
      → meaning (codes "$${" ++ s) offset out ≡ meaning s (offset + 3) (out ++ codes "${")
  unfolding at_dollar strip_prefix
  meaning-escape s offset out =
      meaning-round (codes "$${" ++ s) offset out
      ∙ ap after_round (round-dollar (codes "${" ++ s) offset out)

  at_dollar_neither :
      (s : Text) (at : ℕ) (out : Text)
      → strip_prefix (codes "$${") (b'$' ∷ s) ≡ none
      → strip_prefix (codes "${") (b'$' ∷ s) ≡ none
      → at_dollar lookup s at out ≡ again s (at + 1) (out ++ codes "$")
  unfolding at_dollar
  at_dollar_neither s at out h k = rw (at_dollar, h, k) refl

  -- A `$` that begins neither form is passed on.
  pub meaning-dollar :
      (s : Text) (offset : ℕ) (out : Text)
      → strip_prefix (codes "$${") (b'$' ∷ s) ≡ none
      → strip_prefix (codes "${") (b'$' ∷ s) ≡ none
      → meaning (b'$' ∷ s) offset out ≡ meaning s (offset + 1) (out ++ codes "$")
  meaning-dollar s offset out h k =
      meaning-round (b'$' ∷ s) offset out
      ∙ ap after_round (round-dollar s offset out ∙ at_dollar_neither s offset out h k)

  at_dollar_brace :
      (s : Text) (at : ℕ) (out : Text)
      → at_dollar lookup (b'{' ∷ s) at out ≡ reference lookup s at out
  unfolding at_dollar strip_prefix
  at_dollar_brace s at out = refl

  split_at-name :
      (name s : Text) → all_name name ≡ true → split_at b'}' (name ++ (b'}' ∷ s)) ≡ some (name, s)
  unfolding split_at
  split_at-name [] s h = refl
  split_at-name (c ∷ name) s h =
      let other : (c == b'}') ≡ false = ground (arith, h) in
      let rest : all_name name ≡ true = ground (arith, h) in
      rw (split_at, other, split_at-name name s rest) refl

  -- The value of a reference, where the text goes on.
  abbrev pub put_value : Text → Text → ℕ → Text → Option Text → Expanded
  put_value name s offset out none = some (err (unset name))
  put_value name s offset out (some value) =
      meaning s (offset + 2 + utf8_len name + 1) (out ++ value)

  reference-name :
      (name s : Text) (at : ℕ) (out : Text)
      → is_empty name ≡ false
      → all_name name ≡ true
      → after_round (reference lookup (name ++ (b'}' ∷ s)) at out)
        ≡ put_value name s at out (lookup name)
  unfolding reference
  reference-name name s at out full named = elim (Option-cases (lookup name)) [
    | inl e ↦ rw (reference, split_at-name name s named, full, named, e) refl
    | inr (value, e) ↦ rw (reference, split_at-name name s named, full, named, e) refl
  ]

  -- A reference becomes its variable's value, or the error that the variable is not set.
  pub meaning-reference :
      (name s : Text) (offset : ℕ) (out : Text)
      → is_empty name ≡ false
      → all_name name ≡ true
      → meaning (codes "${" ++ (name ++ (b'}' ∷ s))) offset out
        ≡ put_value name s offset out (lookup name)
  meaning-reference name s offset out full named =
      meaning-round (codes "${" ++ (name ++ (b'}' ∷ s))) offset out
      ∙ ap after_round (
          round-dollar (b'{' ∷ (name ++ (b'}' ∷ s))) offset out
          ∙ at_dollar_brace (name ++ (b'}' ∷ s)) offset out)
      ∙ reference-name name s offset out full named

  round_plain :
      (s : Text) (offset : ℕ) (out : Text)
      → contains s b'$' ≡ false
      → round lookup s offset out ≡ done (ok (out ++ s))
  unfolding round
  round_plain s offset out h = rw (round, split_at_absent b'$' s h) refl

  -- The shortcut for a text without a dollar sign changes nothing.
  pub expand-meaning : (s : Text) → expand lookup s ≡ meaning s 0 []
  unfolding expand
  expand-meaning s = elim (Bool-cases (contains s b'$')) [
    | inl e ↦ rw e refl
    | inr e ↦ rw e (sym (meaning-round s 0 [] ∙ ap after_round (round_plain s 0 [] e)))
  ]
