-- ===== src/Settings/Expand/Substitution.antt =====
-- What `expand` of src/config/env.rs makes of a text that is written in parts.
use blazebee.Base.{
  ℕ, ◌+◌, ◌≡◌, refl, sym, ap, subst, ◌∙◌, true, false, ◌&&◌, ◌==◌, ==_iff, Option, some, List, [],
  ◌∷◌, ◌++◌, append_assoc, append-nil, Result, ok, err, ◌>>=◌, arith, Bool-cases, Option-cases, inl,
  inr,
}
use blazebee.Base.Text.{Text, codes, utf8_len, utf8_width}
use blazebee.Settings.Expand.{EnvError, Expanded, expand}
use blazebee.Settings.Expand.Steps.{
  meaning, meaning-nil, meaning-char, meaning-escape, meaning-dollar, meaning-reference,
  expand-meaning,
}
use blazebee.Settings.Expand.Segments.{
  Segment, literal, reference, escape, write, value_of, AreWritten, Safe, Safe-drop, no_escape,
  no_reference_escape, no_reference_end, no_escape_alone,
}

module _ (lookup : Text → Option Text) where
  -- Somewhere in the text, whatever the offset, the rest is read with the output so far.
  abbrev Reads : Text → ℕ → Text → Text → Text → Type 0
  Reads from offset out rest out' =
      (offset' : ℕ) × (meaning lookup from offset out ≡ meaning lookup rest offset' out')

  Reads-then :
      (a b c : Text) (offset offset' : ℕ) (out out' out₂ : Text)
      → meaning lookup a offset out ≡ meaning lookup b offset' out'
      → Reads b offset' out' c out₂
      → Reads a offset out c out₂
  Reads-then a b c offset offset' out out' out₂ h r = (r.0, h ∙ r.1)

  dollar_end :
      (t : Text) (offset : ℕ) (out : Text)
      → Safe (codes "$") t
      → Reads (b'$' ∷ t) offset out t (out ++ codes "$")
  dollar_end t offset out (inl h) = cc h
  dollar_end t offset out (inr h) =
      subst (λ u. Reads (b'$' ∷ u) offset out u (out ++ codes "$")) (sym h)
        ((offset + 1, meaning-dollar lookup [] offset out no_escape_alone no_reference_end))

  one_char :
      (c : ℕ) (t : Text) (offset : ℕ) (out : Text)
      → Safe (c ∷ []) t
      → Reads (c ∷ t) offset out t (out ++ (c ∷ []))
  one_char c t offset out safe = elim (Bool-cases (c == b'$')) [
    | inr e ↦ (offset + utf8_width c, meaning-char lookup c t offset out e)
    | inl e ↦
        subst (λ d. Safe (d ∷ []) t → Reads (d ∷ t) offset out t (out ++ (d ∷ [])))
          (sym ((==_iff c b'$').0 e)) (dollar_end t offset out) safe
  ]

  -- A character of a literal that is not doubled.
  single :
      (c d : ℕ) (s t : Text) (offset : ℕ) (out : Text)
      → (c == b'$' && d == b'{') ≡ false
      → Safe (c ∷ d ∷ s) t
      → (offset' : ℕ) × (meaning lookup (c ∷ (escape (d ∷ s) ++ t)) offset out
          ≡ meaning lookup (escape (d ∷ s) ++ t) offset' (out ++ (c ∷ [])))
  single c d s t offset out plain safe = elim (Bool-cases (c == b'$')) [
    | inr e ↦ (offset + utf8_width c, meaning-char lookup c (escape (d ∷ s) ++ t) offset out e)
    | inl e ↦
        let open_brace : (d == b'{') ≡ false = ground (arith, plain, e) in
        (
          offset + 1,
          subst
              (λ x.
                meaning lookup (x ∷ (escape (d ∷ s) ++ t)) offset out
                ≡ meaning lookup (escape (d ∷ s) ++ t) (offset + 1) (out ++ (x ∷ [])))
              (sym ((==_iff c b'$').0 e))
              (meaning-dollar lookup (escape (d ∷ s) ++ t) offset out
                (no_escape d s t open_brace safe) (no_reference_escape d s t open_brace)),
        )
  ]

  escape_brace :
      (c d : ℕ) (s t : Text) (offset : ℕ) (out : Text)
      → (c == b'$' && d == b'{') ≡ true
      → meaning lookup (b'$' ∷ b'$' ∷ (escape (d ∷ s) ++ t)) offset out
        ≡ meaning lookup (escape s ++ t) (offset + 3) (out ++ (c ∷ d ∷ []))
  unfolding escape
  escape_brace c d s t offset out h =
      let is_dollar : c ≡ b'$' = ground (arith, h) in
      let is_brace : d ≡ b'{' = ground (arith, h) in
      rw (is_dollar, is_brace) (meaning-escape lookup (escape s ++ t) offset out)

  meaning-literal :
      (l t : Text) (offset : ℕ) (out : Text)
      → Safe l t
      → Reads (escape l ++ t) offset out t (out ++ l)
  unfolding escape
  meaning-literal [] t offset out safe =
      (offset, ap (meaning lookup t offset) (sym (append-nil out)))
  meaning-literal (c ∷ []) t offset out safe = elim (Bool-cases (c == b'$')) [
    | inl e ↦ rw (escape, e) (one_char c t offset out safe)
    | inr e ↦ rw (escape, e) (one_char c t offset out safe)
  ]
  meaning-literal (c ∷ d ∷ s) t offset out safe = elim (Bool-cases (c == b'$' && d == b'{')) [
    | inl e ↦
        let (offset', rest) =
          meaning-literal s t (offset + 3) (out ++ (c ∷ d ∷ [])) (Safe-drop d s t safe) in
        rw (escape, e)
          ((
            offset',
            escape_brace c d s t offset out e
                ∙ rest
                ∙ ap (meaning lookup t offset') (append_assoc out (c ∷ d ∷ []) s),
          ))
    | inr e ↦
        let (offset', here) = single c d s t offset out e safe in
        let (offset₂, rest) = meaning-literal (d ∷ s) t offset' (out ++ (c ∷ [])) safe in
        rw (escape, e)
          ((
            offset₂,
            here ∙ rest ∙ ap (meaning lookup t offset₂) (append_assoc out (c ∷ []) (d ∷ s)),
          ))
  ]

  -- The output so far, then the value.
  abbrev continued : Text → Result EnvError Text → Expanded
  continued out (ok t) = some (ok (out ++ t))
  continued out (err e) = some (err e)

  continued->>= :
      (out v : Text) (r : Result EnvError Text)
      → continued (out ++ v) r ≡ continued out (r >>= λ t. ok (v ++ t))
  continued->>= out v (ok t) = ap (λ x. some (ok x)) (append_assoc out v t)
  continued->>= out v (err e) = refl

  meaning-write :
      (ss : List Segment) (offset : ℕ) (out : Text)
      → AreWritten ss
      → meaning lookup (write ss) offset out ≡ continued out (value_of lookup ss)
  unfolding write value_of
  meaning-write [] offset out h =
      meaning-nil lookup offset out ∙ ap (λ t. some (ok t)) (sym (append-nil out))
  meaning-write (literal l ∷ []) offset out h =
      let (offset', rest) = meaning-literal l [] offset out (inr refl) in
      rest
      ∙ meaning-nil lookup offset' (out ++ l)
      ∙ ap (λ t. some (ok (out ++ t))) (sym (append-nil l))
  meaning-write (literal l ∷ s ∷ ss) offset out h =
      let (offset', rest) = meaning-literal l (write (s ∷ ss)) offset out (inl h.0) in
      rest
      ∙ meaning-write (s ∷ ss) offset' (out ++ l) h.1
      ∙ continued->>= out l (value_of lookup (s ∷ ss))
  meaning-write (reference n ∷ ss) offset out h =
      meaning-reference lookup n (write ss) offset out h.0 h.1 ∙ (elim (Option-cases (lookup n)) [
        | inl e ↦ rw (value_of, e) refl
        | inr (v, e) ↦
            rw (value_of, e)
              (meaning-write ss (offset + 2 + utf8_len n + 1) (out ++ v) h.2
                ∙ continued->>= out v (value_of lookup ss))
      ])

  continued_nil : (r : Result EnvError Text) → continued [] r ≡ some r
  continued_nil (ok t) = refl
  continued_nil (err e) = refl

  -- A text that is written in parts, with a dollar sign doubled before a brace and no literal but the last part
  -- ending in a dollar sign, expands to the literals and the values of the variables in their order, or to the error
  -- that the first variable without a value is not set.
  pub expand-write :
      (ss : List Segment) → AreWritten ss → expand lookup (write ss) ≡ some (value_of lookup ss)
  expand-write ss h =
      expand-meaning lookup (write ss)
      ∙ meaning-write ss 0 [] h
      ∙ continued_nil (value_of lookup ss)
