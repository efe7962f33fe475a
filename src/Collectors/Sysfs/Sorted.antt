-- ===== src/Collectors/Sysfs/Sorted.antt =====
-- The rows of the collectors of /sys (src/core/collectors) come sorted, and none is lost or made up.
use mathlib.Core.List.Perm
use mathlib.Core.List.{Perm}
use blazebee.Base.{◌≡◌, refl, Bool, true, false, List, [], ◌∷◌, arith, Bool-cases, inl, inr}
use blazebee.Base.Text.{Text}
use blazebee.Collectors.Sysfs.{text_le, insert, sort}

pub text_le_total : (s t : Text) → text_le s t ≡ false → text_le t s ≡ true
unfolding text_le
text_le_total [] t h = cc h
text_le_total (x ∷ s) [] h = refl
text_le_total (x ∷ s) (y ∷ t) h = ground (arith, h, text_le_total s t)

module _ {A : Type 0} (le : A → A → Bool) where
  -- Each row may stand before the next.
  abbrev pub Sorted : List A → Type 0
  Sorted [] = Unit
  Sorted (a ∷ []) = Unit
  Sorted (a ∷ b ∷ bs) = (le a b ≡ true) × Sorted (b ∷ bs)

  abbrev Total : Type 0
  Total = (a b : A) → le a b ≡ false → le b a ≡ true

  insert_after :
      (a b : A) (bs : List A)
      → Total
      → le b a ≡ true
      → Sorted (b ∷ bs)
      → Sorted (insert le a bs)
      → Sorted (b ∷ insert le a bs)
  unfolding insert
  insert_after a b [] total h s k = (h, tt)
  insert_after a b (c ∷ bs) total h s k = elim (Bool-cases (le a c)) [
    | inl e ↦ rw (insert, e) ((h, (e, s.1)))
    | inr e ↦ rw (insert, e) ((s.0, rw (insert, e) at k))
  ]

  Sorted-tail : (b : A) (bs : List A) → Sorted (b ∷ bs) → Sorted bs
  Sorted-tail b [] s = tt
  Sorted-tail b (c ∷ bs) s = s.1

  insert-Sorted : (a : A) (bs : List A) → Total → Sorted bs → Sorted (insert le a bs)
  unfolding insert
  insert-Sorted a [] total s = tt
  insert-Sorted a (b ∷ bs) total s = elim (Bool-cases (le a b)) [
    | inl e ↦ rw (insert, e) ((e, s))
    | inr e ↦
        rw (insert, e)
          (insert_after a b bs total (total a b e) s
            (insert-Sorted a bs total (Sorted-tail b bs s)))
  ]

  pub sort-Sorted : (xs : List A) → Total → Sorted (sort le xs)
  unfolding sort
  sort-Sorted [] total = tt
  sort-Sorted (a ∷ xs) total = insert-Sorted a (sort le xs) total (sort-Sorted xs total)

  insert-perm : (a : A) (bs : List A) → Perm (insert le a bs) (a ∷ bs)
  unfolding insert
  insert-perm a [] = Perm.refl (a ∷ [])
  insert-perm a (b ∷ bs) = elim (Bool-cases (le a b)) [
    | inl e ↦ rw (insert, e) (Perm.refl (a ∷ b ∷ bs))
    | inr e ↦ rw (insert, e) (Perm.trans (Perm.cons b (insert-perm a bs)) (Perm.swap a b bs))
  ]

  pub sort-perm : (xs : List A) → Perm (sort le xs) xs
  unfolding sort
  sort-perm [] = Perm.refl []
  sort-perm (a ∷ xs) = Perm.trans (insert-perm a (sort le xs)) (Perm.cons a (sort-perm xs))
