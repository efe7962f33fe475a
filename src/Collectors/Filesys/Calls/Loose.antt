-- ===== src/Collectors/Filesys/Calls/Loose.antt =====
-- The threads that the filesystem collector of src/core/collectors/filesys.rs parks and does not remember.
use blazebee.Base.{
  ℕ, ◌+◌, ◌<◌, ◌≤◌, ◌≡◌, refl, ap, subst, ◌∙◌, Bool, true, false, not, ◌&&◌, ◌==◌, Option, none,
  some, List, [], ◌∷◌, Result, if◌then◌else◌, arith, Bool-cases, ◌⊎◌, inl, inr, ==_iff,
}
use blazebee.Base.Text.{Text, text_eq, text_eq→eq}
use blazebee.Error.{IoError}
use blazebee.Collectors.Maps.{get, remove, get-put, get-remove, get-remove_self}
use blazebee.Collectors.Filesys.Usage.{Usage}
use blazebee.Collectors.Filesys.Calls.{
  Calls, is_parked, has_id, still, Answer, in_time, late, dropped, Progress, value, cut,
  return_calls, start_call,
}

unfoldable pub parked_at : Text → List (ℕ × Text) → ℕ
parked_at p [] = 0
parked_at p ((i, q) ∷ ps) = (if text_eq q p then 1 else 0) + parked_at p ps

abbrev pub owns : Option ℕ → ℕ → Bool
owns none id = false
owns (some i) id = i == id

-- The parked calls at a mount point that the collector does not remember.
unfoldable pub loose : Text → Option ℕ → List (ℕ × Text) → ℕ
loose p o [] = 0
loose p o ((i, q) ∷ ps) = (if text_eq q p && not (owns o i) then 1 else 0) + loose p o ps

-- The numbers fall from the newest call to the oldest.
abbrev pub Below : ℕ → List (ℕ × Text) → Type 0
Below n [] = Unit
Below n ((i, q) ∷ ps) = (i < n) × Below i ps

Below-mono : (m n : ℕ) (ps : List (ℕ × Text)) → m ≤ n → Below m ps → Below n ps
Below-mono m n [] h b = tt
Below-mono m n ((i, q) ∷ ps) h b = (omega (arith, b.0), b.1)

not_parked : (n : ℕ) (ps : List (ℕ × Text)) → Below n ps → is_parked n ps ≡ false
not_parked n [] b = refl
not_parked n ((i, q) ∷ ps) b =
    ground (arith, b.0, not_parked n ps (Below-mono i n ps (omega (arith, b.0)) b.1))

loose-none : (p : Text) (ps : List (ℕ × Text)) → loose p none ps ≡ parked_at p ps
unfolding loose parked_at
loose-none p [] = refl
loose-none p ((i, q) ∷ ps) = ground (arith, loose-none p ps)

loose_absent :
    (p : Text) (id : ℕ) (ps : List (ℕ × Text))
    → is_parked id ps ≡ false
    → loose p (some id) ps ≡ parked_at p ps
unfolding loose parked_at
loose_absent p id [] h = refl
loose_absent p id ((i, q) ∷ ps) h = ground (arith, loose_absent p id ps)

-- The collector remembers at most one of the parked calls at a mount point.
pub parked_at-le :
    (p : Text) (n : ℕ) (o : Option ℕ) (ps : List (ℕ × Text))
    → Below n ps
    → parked_at p ps ≤ loose p o ps + 1
unfolding loose parked_at
parked_at-le p n none ps b = omega (arith, loose-none p ps)
parked_at-le p n (some id) [] b = omega arith
parked_at-le p n (some id) ((i, q) ∷ ps) b = elim (Bool-cases (id == i)) [
  | inl e ↦
      let absent : is_parked id ps ≡ false =
        ap (λ (k : ℕ). is_parked k ps) ((==_iff id i).0 e) ∙ not_parked i ps b.1 in
      ground (arith, e, loose_absent p id ps absent)
  | inr e ↦ ground (arith, e, parked_at-le p i (some id) ps b.1)
]

loose-still :
    (p : Text) (o : Option ℕ) (is : List ℕ) (ps : List (ℕ × Text))
    → loose p o (still is ps) ≤ loose p o ps
unfolding loose
loose-still p o is [] = omega arith
loose-still p o is ((i, q) ∷ ps) = ground (arith, loose-still p o is ps)

still-Below : (n : ℕ) (is : List ℕ) (ps : List (ℕ × Text)) → Below n ps → Below n (still is ps)
still-Below n is [] b = tt
still-Below n is ((i, q) ∷ ps) b = elim (Bool-cases (has_id i is)) [
  | inl e ↦ rw e (still-Below n is ps (Below-mono i n ps (omega (arith, b.0)) b.1))
  | inr e ↦ rw e (b.0, still-Below i is ps b.1)
]

-- With the number of waits that were dropped at each mount point.
pub record IsKept (c : Calls) (d : Text → ℕ) : Type 0 where
  pub below : Below c.next c.parked
  pub loose_le : (p : Text) → loose p (get p c.stuck) c.parked ≤ d p

pub return_calls-IsKept :
    (is : List ℕ) (c : Calls) (d : Text → ℕ) → IsKept c d → IsKept (return_calls is c) d
return_calls-IsKept is c d k = record {
  below = still-Below c.next is c.parked k.below;
  loose_le = λ p. omega (arith, loose-still p (get p c.stuck) is c.parked, k.loose_le p);
}

abbrev pub here : Text → Text → ℕ
here q p = if text_eq q p then 1 else 0

abbrev pub cut_here : Text → Progress → Text → ℕ
cut_here q cut p = here q p
cut_here q (value r) p = 0

-- A thread that the collector remembers and that has returned is forgotten.
pub forget-IsKept :
    (c : Calls) (d : Text → ℕ) (q : Text) (id : ℕ)
    → IsKept c d
    → get q c.stuck ≡ some id
    → is_parked id c.parked ≡ false
    → IsKept (record c { stuck = remove q c.stuck }) d
forget-IsKept c d q id k e gone = record {
  below = k.below;
  loose_le = λ p. elim (Bool-cases (text_eq q p)) [
    | inr other ↦ rw (get-remove q p c.stuck other) (k.loose_le p)
    | inl same ↦
        let at = text_eq→eq q p same in
        subst (λ x. loose x (get x (remove q c.stuck)) c.parked ≤ d x) at
          (rw (get-remove_self q c.stuck) (
            omega (
              arith,
              loose-none q c.parked,
              loose_absent q id c.parked gone,
              rw e at (k.loose_le q),
            )))
  ];
}

loose_own :
    (p q : Text) (n : ℕ) (ps : List (ℕ × Text))
    → loose p (some n) ((n, q) ∷ ps) ≡ loose p (some n) ps
unfolding loose
loose_own p q n ps = let same : (n == n) ≡ true = ground arith in rw same (ground arith)

loose_new :
    (p q : Text) (o : Option ℕ) (n : ℕ) (ps : List (ℕ × Text))
    → loose p o ((n, q) ∷ ps) ≤ here q p + loose p o ps
unfolding loose
loose_new p q o n ps = ground arith

pub start_call-IsKept :
    (results : ℕ → Option (Result IoError Usage)) (c : Calls) (d : Text → ℕ) (q : Text) (a : Answer)
    → IsKept c d
    → get q c.stuck ≡ none
    → let (c', r) = start_call results c q a in IsKept c' (λ p. d p + cut_here q r p)
unfolding start_call
start_call-IsKept results c d q in_time k e = record {
  below = Below-mono c.next (c.next + 1) c.parked (omega arith) k.below;
  loose_le = λ p. omega (arith, k.loose_le p);
}
start_call-IsKept results c d q dropped k e = record {
  below = (omega arith, k.below);
  loose_le = λ p. omega (arith, k.loose_le p, loose_new p q (get p c.stuck) c.next c.parked);
}
start_call-IsKept results c d q late k e = record {
  below = (omega arith, k.below);
  loose_le = λ p. elim (Bool-cases (text_eq q p)) [
    | inr other ↦
        let new = loose_new p q (get p c.stuck) c.next c.parked in
        rw (get-put q p c.next c.stuck, other) (omega (arith, rw other at new, k.loose_le p))
    | inl same ↦
        let at = text_eq→eq q p same in
        let gone = not_parked c.next c.parked k.below in
        let before : parked_at p c.parked ≤ d p =
          subst (λ x. parked_at x c.parked ≤ d x) at
            (omega (arith, loose-none q c.parked, rw e at (k.loose_le q))) in
        rw (get-put q p c.next c.stuck, same)
          (omega
            (arith, loose_own p q c.next c.parked, loose_absent p c.next c.parked gone, before))
  ];
}

pub weaken : (c : Calls) (d e : Text → ℕ) → IsKept c d → ((p : Text) → d p ≤ e p) → IsKept c e
weaken c d e k h = record { below = k.below; loose_le = λ p. omega (arith, k.loose_le p, h p) }

pub Progress-cases :
    (r : Progress) → (r ≡ cut) ⊎ ((v : Option (Result IoError Usage)) × (r ≡ value v))
Progress-cases cut = inl refl
Progress-cases (value v) = inr (v, refl)
