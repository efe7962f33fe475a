-- ===== src/Collectors/Mdraid/Arrays.antt =====
-- What holds of every array that src/core/collectors/mdraid.rs reports, whatever the file.
use blazebee.Base.{
  ◌<◌, ◌≡◌, ◌⊎◌, refl, true, false, Option, none, some, List, [], ◌∷◌, ◌++◌, ltb, ltb→lt, is_some,
  arith, All, All-append, Bool-cases, Option-cases, inl, inr,
}
use blazebee.Base.Text.{Text, codes, text_eq}
use blazebee.Collectors.Procfs.{lines, fields, pieces, non_empty, cons_first}
use blazebee.Collectors.Maps.{member}
use blazebee.Collectors.Search.{starts_with, find, contains_text, trim_start}
use blazebee.Collectors.Mdraid.{
  MdRaidStats, first_or_empty, is_heading, new_array, geometry, take_action, actions, amend,
  at_last, parse_lines, parse,
}
use blazebee.Settings.Expand.{strip_prefix}

-- The pieces of a text before which "md" is put.
abbrev add_md : List Text → List Text
add_md ps = cons_first b'm' (cons_first b'd' ps)

starts_md :
    (ps : List Text) → starts_with (codes "md") (first_or_empty (non_empty (add_md ps))) ≡ true
unfolding strip_prefix
starts_md [] = refl
starts_md (l ∷ ls) = refl

first_field :
    (s : Text) → starts_with (codes "md") (first_or_empty (fields (b'm' ∷ b'd' ∷ s))) ≡ true
unfolding fields pieces
first_field s = starts_md (pieces s)

first_field-md :
    (line : Text)
    → starts_with (codes "md") line ≡ true
    → starts_with (codes "md") (first_or_empty (fields line)) ≡ true
unfolding strip_prefix
first_field-md [] h = cc
first_field-md (x ∷ []) h = ground (arith, h)
first_field-md (x ∷ y ∷ s) h =
    let m : x ≡ b'm' = ground (arith, h) in
    let d : y ≡ b'd' = ground (arith, h) in rw (m, d) (first_field s)

abbrev pub IsAction : Option Text → Type 0
IsAction none = Unit
IsAction (some a) = member a actions ≡ true

module _ {F : Type 0} where
  -- An array has a name of md; one that is degraded has fewer active members than places; an action is one of four, and
  -- there is no progress without one.
  pub record IsArray (s : MdRaidStats F) : Type 0 where
    pub named : starts_with (codes "md") s.device ≡ true
    pub fewer : (s.degraded ≡ false) ⊎ (s.active_devices < s.total_devices)
    pub progress : (s.sync_progress ≡ none) ⊎ (is_some s.sync_action ≡ true)
    pub action : IsAction s.sync_action

  new_array-IsArray : (line : Text) → is_heading line ≡ true → IsArray (new_array F (fields line))
  unfolding new_array is_heading
  new_array-IsArray line h = record {
    named = first_field-md line (ground (arith, h));
    fewer = inl refl;
    progress = inl refl;
    action = tt;
  }

module _ {F : Type 0} (parse_f64 : Text → Option F) where
  take_action-IsArray :
      (trimmed : Text) (acts : List Text) (s : MdRaidStats F)
      → All (λ a. member a actions ≡ true) acts
      → IsArray s
      → IsArray (take_action parse_f64 trimmed acts s)
  unfolding take_action
  take_action-IsArray trimmed [] s known h = h
  take_action-IsArray trimmed (a ∷ acts) s known h =
      elim (Option-cases (find (a ++ codes " =") trimmed)) [
        | inl e ↦ rw (take_action, e) (take_action-IsArray trimmed acts s known.1 h)
        | inr (parts, e) ↦
            rw (take_action, e)
              (record { named = h.named; fewer = h.fewer; progress = inr refl; action = known.0 })
      ]

  actions_known : All (λ a. member a actions ≡ true) actions
  unfolding member text_eq
  actions_known = (refl, (refl, (refl, (refl, tt))))

  amend-IsArray :
      (trimmed : Text) (s : MdRaidStats F) → IsArray s → IsArray (amend parse_f64 trimmed s)
  unfolding amend
  amend-IsArray trimmed s h = elim (Bool-cases (contains_text (codes " blocks ") trimmed)) [
    | inr e ↦ rw e (take_action-IsArray trimmed actions s actions_known h)
    | inl e ↦ elim (Option-cases (geometry trimmed)) [
      | inl e' ↦ rw (e, e') h
      | inr ((n, m), e') ↦
          rw (e, e')
            (record {
              named = h.named;
              fewer = elim (Bool-cases (ltb m n)) [
                | inl less ↦ inr (ltb→lt m n less)
                | inr more ↦ inl more
              ];
              progress = h.progress;
              action = h.action;
            })
    ]
  ]

  at_last-All :
      (f : MdRaidStats F → MdRaidStats F) (ss : List (MdRaidStats F))
      → ((s : MdRaidStats F) → IsArray s → IsArray (f s))
      → All IsArray ss
      → All IsArray (at_last f ss)
  at_last-All f [] keep h = tt
  at_last-All f (s ∷ []) keep h = (keep s h.0, tt)
  at_last-All f (s ∷ t ∷ ss) keep h = (h.0, at_last-All f (t ∷ ss) keep h.1)

  parse_lines-IsArray :
      (ss : List (MdRaidStats F)) (ls : List Text)
      → All IsArray ss
      → All IsArray (parse_lines parse_f64 ss ls)
  unfolding parse_lines
  parse_lines-IsArray ss [] h = h
  parse_lines-IsArray ss (l ∷ ls) h = elim (Bool-cases (is_heading l)) [
    | inl e ↦
        rw (parse_lines, e)
          (parse_lines-IsArray (ss ++ (new_array F (fields l) ∷ [])) ls
            (All-append IsArray ss _ h (new_array-IsArray l e, tt)))
    | inr e ↦
        rw (parse_lines, e)
          (parse_lines-IsArray (at_last (amend parse_f64 (trim_start l)) ss) ls
            (at_last-All (amend parse_f64 (trim_start l)) ss (amend-IsArray (trim_start l)) h))
  ]

  -- Whatever the file holds, every array that is reported has a name that starts with md; one that is degraded has
  -- fewer active members than places; its action, if any, is one of the four; and it has no progress without an
  -- action.
  pub parse-IsArray : (content : Text) → All IsArray (parse parse_f64 content)
  unfolding parse
  parse-IsArray content = parse_lines-IsArray [] (lines content) tt
