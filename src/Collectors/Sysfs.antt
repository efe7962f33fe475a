-- ===== src/Collectors/Sysfs.antt =====
-- The directories of /sys as src/core/collectors walks them, and the sorting of the rows. Directories and files are
-- arguments; an entry whose name is not UTF-8 is `none`.
pub mod Sorted
use blazebee.Base.{
  ℕ, Bool, true, false, Option, none, some, List, [], ◌∷◌, ◌++◌, ltb, ◌==◌, if◌then◌else◌, Result,
  ok, err,
}
use blazebee.Base.Text.{Text}
use blazebee.Error.{IoError}
use blazebee.Collectors.Parsing.{Files, read_trimmed}

pub record Tree : Type 0 where
  pub read_dir : Text → Result IoError (List (Option Text))
  pub files : Files

-- `Path::join`
abbrev pub join : Text → Text → Text
join dir name = dir ++ (b'/' ∷ name)

-- `read_trimmed(..).unwrap_or_default()`
unfoldable pub text_or_empty : Tree → Text → Text
text_or_empty t path = elim (read_trimmed t.files path) [ err e ↦ [] | ok s ↦ s ]

-- `Ord` of strings: UTF-8 keeps the order of the code points.
unfoldable pub text_le : Text → Text → Bool
text_le [] t = true
text_le (x ∷ s) [] = false
text_le (x ∷ s) (y ∷ t) = let rest = text_le s t in if x == y then rest else ltb x y

-- `slice::sort_by`, which is stable, by a test that says whether the first may stand before the second.
module _ {A : Type 0} (le : A → A → Bool) where
  unfoldable pub insert : A → List A → List A
  insert a [] = a ∷ []
  insert a (b ∷ bs) = let rest = insert a bs in if le a b then a ∷ b ∷ bs else b ∷ rest

  unfoldable pub sort : List A → List A
  sort [] = []
  sort (a ∷ rest) = insert a (sort rest)

-- The names of a directory that are UTF-8.
abbrev pub names_in : List (Option Text) → List Text
names_in [] = []
names_in (none ∷ es) = names_in es
names_in (some name ∷ es) = name ∷ names_in es

-- `filter_map` over the names.
module _ {A : Type 0} (row : Text → Option A) where
  unfoldable pub rows : List Text → List A
  rows [] = []
  rows (n ∷ ns) = let rest = rows ns in elim (row n) [ none ↦ rest | some a ↦ a ∷ rest ]
