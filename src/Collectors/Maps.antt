-- ===== src/Collectors/Maps.antt =====
-- `HashMap<String, V>` as src/core/collectors uses it: at most one value for a key, in an order that nobody reads.
use blazebee.Base.{
  ◌≡◌, refl, sym, ap, subst, ◌∙◌, Bool, true, false, ◌||◌, Option, none, some, List, [], ◌∷◌,
  if◌then◌else◌, arith, Bool-cases, inl, inr,
}
use blazebee.Base.Text.{Text, text_eq, text_eq→eq}

-- Whether a text is in the list.
unfoldable pub member : Text → List Text → Bool
member p [] = false
member p (q ∷ qs) = text_eq q p || member p qs

abbrev pub Distinct : List Text → Type 0
Distinct [] = Unit
Distinct (p ∷ ps) = (member p ps ≡ false) × Distinct ps

module _ {ℓ} {V : Type ℓ} where
  unfoldable pub get : Text → List (Text × V) → Option V
  get k [] = none
  get k ((j, v) ∷ m) = if text_eq j k then some v else get k m

  unfoldable pub put : Text → V → List (Text × V) → List (Text × V)
  put k v [] = (k, v) ∷ []
  put k v ((j, w) ∷ m) = if text_eq j k then (k, v) ∷ m else (j, w) ∷ put k v m

  unfoldable pub remove : Text → List (Text × V) → List (Text × V)
  remove k [] = []
  remove k ((j, w) ∷ m) = let rest = remove k m in if text_eq j k then rest else (j, w) ∷ rest

pub text_eq_swap : (s t : Text) → text_eq s t ≡ text_eq t s
text_eq_swap s t = elim (Bool-cases (text_eq s t)) [
  | inl e ↦ subst (λ u. text_eq s u ≡ text_eq u s) (text_eq→eq s t e) refl
  | inr e ↦ elim (Bool-cases (text_eq t s)) [
    | inr e' ↦ e ∙ sym e'
    | inl e' ↦ subst (λ u. text_eq u t ≡ text_eq t u) (text_eq→eq t s e') refl
  ]
]

-- Equal texts compare alike.
pub text_eq_same : (s t u : Text) → text_eq s t ≡ true → text_eq s u ≡ text_eq t u
text_eq_same s t u e = ap (λ x. text_eq x u) (text_eq→eq s t e)

module _ {ℓ} {V : Type ℓ} where
  pub get-put :
      (k j : Text) (v : V) (m : List (Text × V))
      → get j (put k v m) ≡ (if text_eq k j then some v else get j m)
  unfolding get put
  get-put k j v [] = refl
  get-put k j v ((i, w) ∷ m) = elim (Bool-cases (text_eq i k)) [
    | inl e ↦ ground (arith, e, text_eq_same i k j e)
    | inr e ↦ elim (Bool-cases (text_eq i j)) [
      | inl e' ↦ ground (arith, e, e', text_eq_same i j k e', text_eq_swap j k)
      | inr e' ↦ ground (arith, e, e', get-put k j v m)
    ]
  ]

  pub get-remove :
      (k j : Text) (m : List (Text × V)) → text_eq k j ≡ false → get j (remove k m) ≡ get j m
  unfolding get remove
  get-remove k j [] h = refl
  get-remove k j ((i, w) ∷ m) h = elim (Bool-cases (text_eq i k)) [
    | inl e ↦ ground (arith, e, h, text_eq_same i k j e, get-remove k j m h)
    | inr e ↦ ground (arith, e, h, get-remove k j m h)
  ]

  pub get-remove_self : (k : Text) (m : List (Text × V)) → get k (remove k m) ≡ none
  unfolding get remove
  get-remove_self k [] = refl
  get-remove_self k ((i, w) ∷ m) = elim (Bool-cases (text_eq i k)) [
    | inl e ↦ ground (arith, e, get-remove_self k m)
    | inr e ↦ ground (arith, e, get-remove_self k m)
  ]
