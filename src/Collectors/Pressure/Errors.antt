-- ===== src/Collectors/Pressure/Errors.antt =====
-- The errors of `parse` of src/core/collectors/pressure.rs.
use blazebee.Base.{
  ℕ, ◌≡◌, refl, Bool, true, false, List, [], ◌∷◌, Result, ok, err, ◌>>=◌, Bool-cases, Option-cases,
  inl, inr,
}
use blazebee.Base.Text.{Text, codes, text_eq}
use blazebee.Collectors.Error.{CollectorError, unsupported}
use blazebee.Collectors.Procfs.{lines, fields, parse_field, parse_uint}
use blazebee.Collectors.Parsing.{F64, parse_with}
use blazebee.Collectors.Pressure.{
  PressureStats, Figures, no_figures, no_stats, set_figure, take_token, take_tokens, Seen,
  put_figures, take_line, take_lines, parse,
}
use blazebee.Settings.Expand.{split_at}

abbrev pub is_unsupported : CollectorError → Bool
is_unsupported (unsupported what) = true
is_unsupported _ = false

-- An error says something else than that the kernel has no pressure information, and a value has the property.
module _ {A : Type 0} where
  abbrev pub Ends : (A → Type 0) → Result CollectorError A → Type 0
  Ends P (ok a) = P a
  Ends P (err e) = is_unsupported e ≡ false

  abbrev pub Any : A → Type 0
  Any a = Unit

pub Ends->>= :
    {A B : Type 0} (P : A → Type 0) (Q : B → Type 0) (r : Result CollectorError A)
    (f : A → Result CollectorError B)
    → Ends P r
    → ((a : A) → P a → Ends Q (f a))
    → Ends Q (r >>= f)
Ends->>= P Q (ok a) f h k = k a h
Ends->>= P Q (err e) f h k = h

pub Ends-mono :
    {A : Type 0} (P Q : A → Type 0) (r : Result CollectorError A)
    → Ends P r
    → ((a : A) → P a → Q a)
    → Ends Q r
Ends-mono P Q (ok a) h k = k a h
Ends-mono P Q (err e) h k = h

parse_field-Ends : (w : ℕ) (token path what : Text) → Ends Any (parse_field w token path what)
unfolding parse_field
parse_field-Ends w token path what = elim (Option-cases (parse_uint w token)) [
  | inl e ↦ rw (parse_field, e) refl
  | inr (n, e) ↦ rw (parse_field, e) tt
]

module _ {F : Type 0} (f64 : F64 F) where
  parse_with-Ends : (token path what : Text) → Ends Any (parse_with f64.from_str token path what)
  unfolding parse_with
  parse_with-Ends token path what = elim (Option-cases (f64.from_str token)) [
    | inl e ↦ rw (parse_with, e) refl
    | inr (x, e) ↦ rw (parse_with, e) tt
  ]

  set_figure-Ends :
      (path : Text) (g : Figures F) (key v : Text) → Ends Any (set_figure f64 path g key v)
  unfolding set_figure
  set_figure-Ends path g key v = elim (Bool-cases (text_eq key (codes "avg10"))) [
    | inl e ↦ rw e (Ends->>= Any Any _ _ (parse_with-Ends v path (codes "avg10")) (λ x h. tt))
    | inr e ↦ elim (Bool-cases (text_eq key (codes "avg60"))) [
      | inl e' ↦
          rw (e, e') (Ends->>= Any Any _ _ (parse_with-Ends v path (codes "avg60")) (λ x h. tt))
      | inr e' ↦ elim (Bool-cases (text_eq key (codes "avg300"))) [
        | inl e₂ ↦
            rw (e, e', e₂)
              (Ends->>= Any Any _ _ (parse_with-Ends v path (codes "avg300")) (λ x h. tt))
        | inr e₂ ↦ elim (Bool-cases (text_eq key (codes "total"))) [
          | inl e₃ ↦
              rw (e, e', e₂, e₃)
                (Ends->>= Any Any _ _ (parse_field-Ends 64 v path (codes "total")) (λ x h. tt))
          | inr e₃ ↦ rw (e, e', e₂, e₃) tt
        ]
      ]
    ]
  ]

  take_token-Ends : (path : Text) (g : Figures F) (t : Text) → Ends Any (take_token f64 path g t)
  unfolding take_token
  take_token-Ends path g t = elim (Option-cases (split_at b'=' t)) [
    | inl e ↦ rw (take_token, e) tt
    | inr (parts, e) ↦ rw (take_token, e) (set_figure-Ends path g parts.0 parts.1)
  ]

  take_tokens-Ends :
      (path : Text) (g : Figures F) (ts : List Text) → Ends Any (take_tokens f64 path g ts)
  unfolding take_tokens
  take_tokens-Ends path g [] = tt
  take_tokens-Ends path g (t ∷ ts) =
      Ends->>= Any Any (take_token f64 path g t) (λ g'. take_tokens f64 path g' ts)
        (take_token-Ends path g t) (λ g' h. take_tokens-Ends path g' ts)

  abbrev Named : Text → Seen f64 → Type 0
  Named name t = t.0.metric_type ≡ name

  put_figures-Named :
      (kind : Text) (g : Figures F) (name : Text) (t : Seen f64)
      → Named name t
      → Named name (put_figures f64 kind g t)
  unfolding put_figures
  put_figures-Named kind g name (s, seen) h = elim (Bool-cases (text_eq kind (codes "some"))) [
    | inl e ↦ rw e h
    | inr e ↦ elim (Bool-cases (text_eq kind (codes "full"))) [
      | inl e' ↦ rw (e, e') h
      | inr e' ↦ rw (e, e') h
    ]
  ]

  take_line-Named :
      (path name : Text) (t : Seen f64) (fs : List Text)
      → Named name t
      → Ends (Named name) (take_line f64 path t fs)
  unfolding take_line
  take_line-Named path name t [] h = h
  take_line-Named path name t (kind ∷ tokens) h =
      Ends->>= Any (Named name) (take_tokens f64 path (no_figures f64) tokens) _
        (take_tokens-Ends path (no_figures f64) tokens) (λ g k. put_figures-Named kind g name t h)

  take_lines-Named :
      (path name : Text) (t : Seen f64) (ls : List Text)
      → Named name t
      → Ends (Named name) (take_lines f64 path t ls)
  unfolding take_lines
  take_lines-Named path name t [] h = h
  take_lines-Named path name t (l ∷ ls) h =
      Ends->>= (Named name) (Named name) (take_line f64 path t (fields l)) _
        (take_line-Named path name t (fields l) h) (λ t' k. take_lines-Named path name t' ls k)

  pub parse-Named :
      (name path content : Text)
      → Ends (λ (s : PressureStats F). s.metric_type ≡ name) (parse f64 name path content)
  unfolding parse
  parse-Named name path content =
      Ends->>= (Named name) _ (take_lines f64 path (no_stats f64 name, false) (lines content)) _
        (take_lines-Named path name (no_stats f64 name, false) (lines content) refl)
        (λ t h. elim (Bool-cases t.1) [ inl e ↦ rw e h | inr e ↦ rw e refl ])
