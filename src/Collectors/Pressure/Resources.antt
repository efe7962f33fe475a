-- ===== src/Collectors/Pressure/Resources.antt =====
-- What `collect` of src/core/collectors/pressure.rs reports, by which of the three files exist.
use blazebee.Base.{
  ℕ, suc, ◌+◌, ◌<◌, ◌≤◌, ◌≡◌, ◌↔◌, refl, sym, ap, ◌∙◌, Bool, true, false, ◌==◌, ==_iff, List, [],
  ◌∷◌, ◌++◌, append_assoc, append-nil, map, length, if◌then◌else◌, Result, ok, err, ◌>>=◌, arith,
  Bool-cases, Result-cases, inl, inr,
}
use mathlib.Core.List.{map-append}
use blazebee.Base.Text.{Text}
use blazebee.Error.{IoError}
use blazebee.Collectors.Error.{CollectorError}
use blazebee.Collectors.Parsing.{F64, Files}
use blazebee.Collectors.Pressure.{
  PressureStats, resources, parse, take_resources, conclude, collect, is_not_found,
}
use blazebee.Collectors.Pressure.Errors.{is_unsupported, Ends, Ends-mono, parse-Named}

-- The file does not exist.
abbrev pub is_absent : Result IoError Text → Bool
is_absent (ok content) = false
is_absent (err e) = is_not_found e

-- The files that exist, by the names of their resources, and how many do not.
unfoldable pub present : Files → List (Text × Text) → List Text
present files [] = []
present files ((name, path) ∷ rs) =
    let rest = present files rs in if is_absent (files path) then rest else name ∷ rest

unfoldable pub absent_of : Files → List (Text × Text) → ℕ
absent_of files [] = 0
absent_of files ((name, path) ∷ rs) = (if is_absent (files path) then 1 else 0) + absent_of files rs

absent_of-le : (files : Files) (rs : List (Text × Text)) → absent_of files rs ≤ length rs
unfolding absent_of
absent_of-le files [] = omega arith
absent_of-le files ((name, path) ∷ rs) = ground (arith, absent_of-le files rs)

module _ {F : Type 0} (f64 : F64 F) (files : Files) where
  abbrev pub names_of : List (PressureStats F) → List Text
  names_of ss = map (λ (s : PressureStats F). s.metric_type) ss

  abbrev Gathered :
      List (PressureStats F) → ℕ → List (Text × Text) → List (PressureStats F) × ℕ → Type 0
  Gathered stats absent rs r =
      (names_of r.0 ≡ names_of stats ++ present files rs) × (r.1 ≡ absent + absent_of files rs)

  take_resources-Gathered :
      (stats : List (PressureStats F)) (absent : ℕ) (rs : List (Text × Text))
      → Ends (Gathered stats absent rs) (take_resources f64 files stats absent rs)
  unfolding take_resources present absent_of
  take_resources-Gathered stats absent [] = (sym (append-nil (names_of stats)), omega arith)
  take_resources-Gathered stats absent ((name, path) ∷ rs) = elim (Result-cases (files path)) [
    | inl (content, e) ↦ elim (Result-cases (parse f64 name path content)) [
      | inr (x, e') ↦ rw (take_resources, e, e') (rw e' at (parse-Named f64 name path content))
      | inl (s, e') ↦
          let named = rw e' at (parse-Named f64 name path content) in
          rw (take_resources, e, e')
            (Ends-mono _ _ (take_resources f64 files (stats ++ (s ∷ [])) absent rs)
              (take_resources-Gathered (stats ++ (s ∷ [])) absent rs)
              (λ r g.
                rw (present, absent_of, e)
                  (
                    g.0
                        ∙ rw
                            (
                              map-append (λ (s' : PressureStats F). s'.metric_type) stats (s ∷ []),
                              named,
                            )
                            (append_assoc (names_of stats) (name ∷ []) (present files rs)),
                    omega (arith, g.1),
                  )))
    ]
    | inr (x, e) ↦ elim (Bool-cases (is_not_found x)) [
      | inl gone ↦
          rw (take_resources, e, gone)
            (Ends-mono _ _ (take_resources f64 files stats (absent + 1) rs)
              (take_resources-Gathered stats (absent + 1) rs)
              (λ r g. rw (present, absent_of, e, gone) (g.0, omega (arith, g.1))))
      | inr there ↦ rw (take_resources, e, there) refl
    ]
  ]

  take_resources_none :
      (stats : List (PressureStats F)) (absent : ℕ) (rs : List (Text × Text))
      → absent_of files rs ≡ length rs
      → take_resources f64 files stats absent rs ≡ ok (stats, absent + length rs)
  unfolding take_resources absent_of
  take_resources_none stats absent [] h = ap (λ n. ok (stats, n)) (omega arith)
  take_resources_none stats absent ((name, path) ∷ rs) h = elim (Result-cases (files path)) [
    | inl (content, e) ↦ absurd (none_left rs (rw (absent_of, e) at h))
    | inr (x, e) ↦ elim (Bool-cases (is_not_found x)) [
      | inr there ↦ absurd (none_left rs (rw (absent_of, e, there) at h))
      | inl gone ↦
          rw (take_resources, e, gone)
            (take_resources_none stats (absent + 1) rs (omega (arith, rw (absent_of, e, gone) at h))
              ∙ ap (λ n. ok (stats, n)) (omega arith))
    ]
  ]
    where
      none_left : (qs : List (Text × Text)) → 0 + absent_of files qs ≡ suc (length qs) → ⊥
      none_left qs h = omega (arith, h, absent_of-le files qs)

  abbrev pub Reports : List (Text × Text) → Result CollectorError (List (PressureStats F)) → Type 0
  Reports rs (ok ss) = (names_of ss ≡ present files rs) × (absent_of files rs < 3)
  Reports rs (err e) = (is_unsupported e ≡ true) ↔ (absent_of files rs ≡ 3)

  conclude-Reports :
      (rs : List (Text × Text))
      → length rs ≡ 3
      → Reports rs (take_resources f64 files [] 0 rs >>= conclude f64)
  unfolding conclude
  conclude-Reports rs three = elim (Result-cases (take_resources f64 files [] 0 rs)) [
    | inr (x, e) ↦ rw e (
      (λ yes'. cc (yes', rw e at (take_resources-Gathered [] 0 rs))),
      (λ all. cc (e, take_resources_none [] 0 rs (all ∙ sym three))),
    )
    | inl (r, e) ↦
        let g = rw e at (take_resources-Gathered [] 0 rs) in
        elim (Bool-cases (r.1 == 3)) [
          | inl e' ↦
              rw (e, conclude, e') ((λ h. omega (arith, g.1, (==_iff r.1 3).0 e')), (λ h. refl))
          | inr e' ↦
              rw (e, conclude, e') ((g.0, ground (arith, g.1, e', absent_of-le files rs, three)))
        ]
  ]

  -- When there is a report, it has one entry for each of the three files that exists, in order, and some file exists.
  -- An error says that the kernel has no pressure information exactly when none of the three files exists.
  pub collect-Reports : Reports resources (collect f64 files)
  unfolding collect
  collect-Reports = conclude-Reports resources refl
