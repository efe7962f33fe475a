-- ===== src/Collectors/Counters.antt =====
-- A row of counters: what the collectors read field by field into an array of u64.
use blazebee.Base.{
  ℕ, zero, suc, ◌-◌, ◌*◌, ◌^◌, ◌<◌, ◌≡◌, refl, ap, subst, ok-injective, min, List, [], ◌∷◌, length,
  Result, ok, err, arith, All, Result-cases, inl, inr, Option-cases,
}
use blazebee.Base.Text.{Text}
use blazebee.Collectors.Error.{CollectorError}
use blazebee.Collectors.Procfs.{next_field, parse_field, parse_uint, parse_uint-lt}

-- A slot of the array, which starts with zeros.
abbrev pub slot : List ℕ → ℕ → ℕ
slot [] i = 0
slot (v ∷ vs) zero = v
slot (v ∷ vs) (suc i) = slot vs i

-- `u64::saturating_mul`
abbrev pub saturating_mul : ℕ → ℕ → ℕ
saturating_mul a b = min (a * b) (2 ^ 64 - 1)

-- Each name's field must be there.
unfoldable pub required : Text → List Text → List Text → Result CollectorError (List ℕ × List Text)
required path [] fs = ok ([], fs)
required path (what ∷ names) fs = elim (next_field 64 fs path what) [
  | err e ↦ err e
  | ok read ↦ elim (required path names read.1) [
    | err e ↦ err e
    | ok more ↦ ok (read.0 ∷ more.0, more.1)
  ]
]

-- The fields may end early; the slots that are left stay 0.
unfoldable pub optional : Text → List Text → List Text → Result CollectorError (List ℕ)
optional path [] fs = ok []
optional path (what ∷ names) [] = ok []
optional path (what ∷ names) (token ∷ fs) = elim (parse_field 64 token path what) [
  | err e ↦ err e
  | ok n ↦ elim (optional path names fs) [ err e ↦ err e | ok more ↦ ok (n ∷ more) ]
]

next_field-lt :
    (w : ℕ) (fs : List Text) (path what : Text) (read : ℕ × List Text)
    → next_field w fs path what ≡ ok read
    → read.0 < 2 ^ w
unfolding next_field parse_field
next_field-lt w [] path what read h = cc
next_field-lt w (token ∷ fs) path what read h = elim (Option-cases (parse_uint w token)) [
  | inl e ↦ cc (rw (next_field, e) at h)
  | inr (n, e) ↦ ground (arith, rw (next_field, e) at h, parse_uint-lt w token n e)
]

abbrev pub IsRow : List Text → List ℕ → Type 0
IsRow names vs = (length vs ≡ length names) × All (λ v. v < 2 ^ 64) vs

-- What is read is one u64 for each name.
pub required-IsRow :
    (path : Text) (names fs : List Text) (read : List ℕ × List Text)
    → required path names fs ≡ ok read
    → IsRow names read.0
unfolding required
required-IsRow path [] fs read h =
    subst (λ (r : List ℕ × List Text). IsRow [] r.0) (ok-injective ([], fs) read h) (refl, tt)
required-IsRow path (what ∷ names) fs read h = elim (Result-cases (next_field 64 fs path what)) [
  | inr (x, e) ↦ cc (rw (required, e) at h)
  | inl (first, e) ↦ elim (Result-cases (required path names first.1)) [
    | inr (x, e') ↦ cc (rw (required, e, e') at h)
    | inl (more, e') ↦
        let (n, small) = required-IsRow path names first.1 more e' in
        subst (λ (r : List ℕ × List Text). IsRow (what ∷ names) r.0)
          (ok-injective (first.0 ∷ more.0, more.1) read (rw (required, e, e') at h))
          (ap suc n, (next_field-lt 64 fs path what first e, small))
  ]
]
