-- ===== src/Collectors/Filesys/Mounts.antt =====
-- What `parse_mounts` of src/core/collectors/filesys.rs keeps of the mounts, whatever the hash map does.
use blazebee.Base.{
  ◌≡◌, refl, ap, ◌∙◌, true, false, some, List, [], ◌∷◌, ◌++◌, map, is_some, Bool-cases,
  Option-cases, inl, inr,
}
use mathlib.Core.Path.{fun_ext}
use blazebee.Base.Text.{Text, text_eq, text_eq_refl, text_eq→eq}
use blazebee.Collectors.Procfs.{lines}
use blazebee.Collectors.Maps.{member, Distinct, get, remove, text_eq_swap, get-remove}
use blazebee.Collectors.Filesys.{Mount, empty_table, take_out, parse_mounts}
use blazebee.Collectors.Filesys.Tables.{
  kept, paths, last_at, or_else, add_all, read_mounts-kept, get-add_all, member-snoc, Agrees,
  add_all-order, add_all-Agrees,
}

member_same : (p q : Text) (qs : List Text) → text_eq p q ≡ true → member p qs ≡ member q qs
member_same p q qs e = ap (λ x. member x qs) (text_eq→eq p q e)

paths-fresh :
    (p : Text) (known : List Text) (ms : List Mount)
    → member p known ≡ true
    → member p (paths known ms) ≡ false
unfolding member paths
paths-fresh p known [] h = refl
paths-fresh p known (m ∷ ms) h = elim (Bool-cases (member m.mount_point known)) [
  | inl e ↦ rw (paths, e) (paths-fresh p known ms h)
  | inr e ↦ elim (Bool-cases (text_eq m.mount_point p)) [
    | inl e' ↦ cc (h, e, member_same m.mount_point p known e')
    | inr e' ↦
        rw (paths, e, member, e')
          (paths-fresh p (known ++ (m.mount_point ∷ [])) ms
            (member-snoc p m.mount_point known ∙ rw e' h))
  ]
]

paths-Distinct : (known : List Text) (ms : List Mount) → Distinct (paths known ms)
unfolding paths
paths-Distinct known [] = tt
paths-Distinct known (m ∷ ms) = elim (Bool-cases (member m.mount_point known)) [
  | inl e ↦ rw (paths, e) (paths-Distinct known ms)
  | inr e ↦
      rw (paths, e)
        (
          paths-fresh m.mount_point (known ++ (m.mount_point ∷ [])) ms (
              member-snoc m.mount_point m.mount_point known ∙ rw (text_eq_refl m.mount_point) refl),
          paths-Distinct (known ++ (m.mount_point ∷ [])) ms,
        )
]

member_apart :
    (p q : Text) (ps : List Text) → member q ps ≡ false → member p ps ≡ true → text_eq q p ≡ false
member_apart p q ps no_q has_p = elim (Bool-cases (text_eq q p)) [
  | inr e ↦ e
  | inl e ↦ cc (no_q, has_p, member_same q p ps e)
]

map-get-remove :
    (q : Text) (by_path : List (Text × Mount)) (ps : List Text)
    → member q ps ≡ false
    → map (λ p. get p (remove q by_path)) ps ≡ map (λ p. get p by_path) ps
unfolding member
map-get-remove q by_path [] h = refl
map-get-remove q by_path (p ∷ ps) h = elim (Bool-cases (text_eq p q)) [
  | inl e ↦ cc (rw (member, e) at h)
  | inr e ↦
      rw
        (
          get-remove q p by_path (text_eq_swap q p ∙ e),
          map-get-remove q by_path ps (rw (member, e) at h),
        )
        refl
]

-- Nothing that is in the order is missing from the map when its turn comes.
take_out-get :
    (ps : List Text) (by_path : List (Text × Mount))
    → Distinct ps
    → ((p : Text) → member p ps ≡ true → is_some (get p by_path) ≡ true)
    → map some (take_out ps by_path) ≡ map (λ p. get p by_path) ps
unfolding take_out member
take_out-get [] by_path d h = refl
take_out-get (q ∷ ps) by_path d h = elim (Option-cases (get q by_path)) [
  | inl e ↦ cc (e, h q (rw (member, text_eq_refl q) refl))
  | inr (m, e) ↦
      rw (take_out, e)
        (ap (λ ms. some m ∷ ms)
          (take_out-get ps (remove q by_path) d.1 (λ p has.
              let apart = member_apart p q ps d.0 has in
              rw (get-remove q p by_path apart) (h p (rw (member, apart) has)))
            ∙ map-get-remove q by_path ps d.0))
]

last_at-path : (p : Text) (ms : List Mount) (m : Mount) → last_at p ms ≡ some m → m.mount_point ≡ p
unfolding last_at
last_at-path p [] m h = cc
last_at-path p (x ∷ ms) m h = elim (Option-cases (last_at p ms)) [
  | inr (later, e) ↦ last_at-path p ms m (e ∙ (rw (last_at, e) at h))
  | inl e ↦ elim (Bool-cases (text_eq x.mount_point p)) [
    | inr e' ↦ cc (rw (last_at, e, e') at h)
    | inl e' ↦ cc (rw (last_at, e, e') at h, text_eq→eq x.mount_point p e')
  ]
]

map-mount_point :
    (ms : List Mount) (ps : List Text) (all : List Mount)
    → map some ms ≡ map (λ p. last_at p all) ps
    → map (λ (m : Mount). m.mount_point) ms ≡ ps
map-mount_point [] [] all h = refl
map-mount_point [] (p ∷ ps) all h = cc
map-mount_point (m ∷ ms) [] all h = cc
map-mount_point (m ∷ ms) (p ∷ ps) all h =
    cc (last_at-path p all m (cc h), map-mount_point ms ps all (cc h))

empty_Agrees : Agrees empty_table
unfolding get member
empty_Agrees p = refl

or_else_none :
    (p : Text) (ms : List Mount) → or_else (last_at p ms) (get p empty_table.by_path) ≡ last_at p ms
unfolding get
or_else_none p ms = elim (Option-cases (last_at p ms)) [
  | inl e ↦ rw e refl
  | inr (m, e) ↦ rw e refl
]

abbrev pub Measured : Text → List Mount → Type 0
Measured content result =
    let all = kept (lines content) in
    (map some result ≡ map (λ p. last_at p all) (paths [] all))
    × (map (λ (m : Mount). m.mount_point) result ≡ paths [] all)
    × Distinct (paths [] all)

-- There is exactly one mount for each mount point of the lines that are not skipped. The mount points stand in the
-- order in which they first appear, none twice, and each mount is the last one of its mount point.
pub parse_mounts_lem : (content : Text) → Measured content (parse_mounts content)
unfolding parse_mounts
parse_mounts_lem content =
    let all = kept (lines content) in
    let agrees : Agrees empty_table = empty_Agrees in
    let t = add_all empty_table all in
    let order : t.order ≡ paths [] all = add_all-order empty_table all agrees in
    let order_Distinct : Distinct t.order = rw order (paths-Distinct [] all) in
    let found =
      take_out-get t.order t.by_path order_Distinct
        (λ p has. add_all-Agrees empty_table all agrees p ∙ has) in
    let same : map some (take_out t.order t.by_path) ≡ map (λ p. last_at p all) (paths [] all) =
      found
      ∙ ap (λ f. map f t.order) (fun_ext (λ p. get-add_all p empty_table all ∙ or_else_none p all))
      ∙ rw order refl in
    rw (read_mounts-kept empty_table (lines content))
      ((same, map-mount_point _ _ all same, paths-Distinct [] all))
