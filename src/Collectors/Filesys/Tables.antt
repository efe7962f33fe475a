-- ===== src/Collectors/Filesys/Tables.antt =====
-- The two collections that `parse_mounts` of src/core/collectors/filesys.rs fills, after all lines.
use blazebee.Base.{
  ◌≡◌, refl, sym, ap, ◌∙◌, ◌||◌, Option, none, some, List, [], ◌∷◌, ◌++◌, append_assoc, append-nil,
  if◌then◌else◌, is_some, arith, Bool-cases, Option-cases, inl, inr,
}
use blazebee.Base.Text.{Text, text_eq, text_eq→eq}
use blazebee.Collectors.Procfs.{fields}
use blazebee.Collectors.Maps.{member, get, get-put}
use blazebee.Collectors.Filesys.{Mount, Table, parse_mount, add_mount, read_mounts}

-- The mounts of the lines that are not skipped.
unfoldable pub kept : List Text → List Mount
kept [] = []
kept (l ∷ ls) =
    let rest = kept ls in elim (parse_mount (fields l)) [ none ↦ rest | some m ↦ m ∷ rest ]

-- The mount points beyond those that are known, each where it first appears.
unfoldable pub paths : List Text → List Mount → List Text
paths known [] = []
paths known (m ∷ ms) =
    let fresh = m.mount_point ∷ paths (known ++ (m.mount_point ∷ [])) ms in
    let rest = paths known ms in if member m.mount_point known then rest else fresh

-- The last of the mounts at a path.
unfoldable pub last_at : Text → List Mount → Option Mount
last_at p [] = none
last_at p (m ∷ ms) = elim (last_at p ms) [
  | some later ↦ some later
  | none ↦ if text_eq m.mount_point p then some m else none
]

abbrev pub or_else : Option Mount → Option Mount → Option Mount
or_else (some m) o = some m
or_else none o = o

abbrev pub add_all : Table → List Mount → Table
add_all t [] = t
add_all t (m ∷ ms) = add_all (add_mount t m) ms

pub read_mounts-kept : (t : Table) (ls : List Text) → read_mounts t ls ≡ add_all t (kept ls)
unfolding read_mounts kept
read_mounts-kept t [] = refl
read_mounts-kept t (l ∷ ls) = elim (Option-cases (parse_mount (fields l))) [
  | inl e ↦ rw (read_mounts, kept, e) (read_mounts-kept t ls)
  | inr (m, e) ↦ rw (read_mounts, kept, e) (read_mounts-kept (add_mount t m) ls)
]

-- The map holds the last mount at every path.
pub get-add_all :
    (p : Text) (t : Table) (ms : List Mount)
    → get p (add_all t ms).by_path ≡ or_else (last_at p ms) (get p t.by_path)
unfolding last_at add_mount
get-add_all p t [] = refl
get-add_all p t (m ∷ ms) = get-add_all p (add_mount t m) ms ∙ (elim (Option-cases (last_at p ms)) [
  | inr (later, e) ↦ rw (last_at, e) refl
  | inl e ↦
      rw (last_at, e)
        (get-put m.mount_point p m t.by_path ∙ (elim (Bool-cases (text_eq m.mount_point p)) [
          | inl e' ↦ rw e' refl
          | inr e' ↦ rw e' refl
        ]))
])

pub member-snoc :
    (p q : Text) (qs : List Text) → member p (qs ++ (q ∷ [])) ≡ (text_eq q p || member p qs)
unfolding member
member-snoc p q [] = refl
member-snoc p q (r ∷ qs) = ground (arith, member-snoc p q qs)

-- The order lists exactly the paths of the map.
abbrev pub Agrees : Table → Type 0
Agrees t = (p : Text) → is_some (get p t.by_path) ≡ member p t.order

pub add_mount-Agrees : (t : Table) (m : Mount) → Agrees t → Agrees (add_mount t m)
unfolding add_mount
add_mount-Agrees t m h p = elim (Bool-cases (is_some (get m.mount_point t.by_path))) [
  | inl e ↦
      rw (e, get-put m.mount_point p m t.by_path)
        (elim (Bool-cases (text_eq m.mount_point p)) [
          | inr e' ↦ rw e' (h p)
          | inl e' ↦ rw e' (
              sym (
                ap (λ q. member q t.order) (sym (text_eq→eq m.mount_point p e'))
                ∙ sym (h m.mount_point)
                ∙ e))
        ])
  | inr e ↦
      rw (e, get-put m.mount_point p m t.by_path, member-snoc p m.mount_point t.order)
        (elim (Bool-cases (text_eq m.mount_point p)) [ inr e' ↦ rw e' (h p) | inl e' ↦ rw e' refl ])
]

pub add_all-order :
    (t : Table) (ms : List Mount) → Agrees t → (add_all t ms).order ≡ t.order ++ paths t.order ms
unfolding paths add_mount
add_all-order t [] h = sym (append-nil t.order)
add_all-order t (m ∷ ms) h = elim (Bool-cases (member m.mount_point t.order)) [
  | inl e ↦
      add_all-order (add_mount t m) ms (add_mount-Agrees t m h)
      ∙ rw (add_mount, paths, h m.mount_point, e) refl
  | inr e ↦
      add_all-order (add_mount t m) ms (add_mount-Agrees t m h)
      ∙ rw (add_mount, paths, h m.mount_point, e) (append_assoc t.order (m.mount_point ∷ []) _)
]

pub add_all-Agrees : (t : Table) (ms : List Mount) → Agrees t → Agrees (add_all t ms)
add_all-Agrees t [] h = h
add_all-Agrees t (m ∷ ms) h = add_all-Agrees (add_mount t m) ms (add_mount-Agrees t m h)
