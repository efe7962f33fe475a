-- ===== src/Collectors/Edac.antt =====
-- src/core/collectors/edac.rs: `read_controllers`.
use blazebee.Base.{
  ℕ, Bool, true, ◌&&◌, ◌||◌, Option, none, some, List, [], ◌∷◌, ◌++◌, drop, leb, Result, ok, err,
  if◌then◌else◌,
}
use blazebee.Base.Text.{Text, codes, is_empty}
use blazebee.Collectors.Error.{CollectorError, read}
use blazebee.Collectors.Procfs.{parse_uint}
use blazebee.Collectors.Parsing.{read_trimmed}
use blazebee.Collectors.Search.{starts_with}
use blazebee.Collectors.Sysfs.{Tree, join, text_le, sort, names_in, rows}

pub record EdacStats : Type 0 where
  pub controller : Text
  pub correctable_errors : ℕ
  pub uncorrectable_errors : ℕ
  pub dimm_label : Text

abbrev all_digits : Text → Bool
all_digits [] = true
all_digits (c ∷ s) = leb b'0' c && leb c b'9' && all_digits s

unfoldable pub is_controller : Text → Bool
is_controller name = starts_with (codes "mc") name && all_digits (drop 2 name)

-- `labels.join(",")`
unfoldable pub join_labels : List Text → Text
join_labels [] = []
join_labels (l ∷ []) = l
join_labels (l ∷ m ∷ ls) = l ++ (b',' ∷ join_labels (m ∷ ls))

module _ (tree : Tree) where
  -- The closure `count`.
  unfoldable pub count : Text → Text → ℕ
  count dir file = elim (read_trimmed tree.files (join dir file)) [
    | err e ↦ 0
    | ok s ↦ elim (parse_uint 64 s) [ none ↦ 0 | some n ↦ n ]
  ]

  unfoldable pub label_of : Text → Text → Option Text
  label_of dir n =
      if starts_with (codes "dimm") n || starts_with (codes "rank") n
      then elim (read_trimmed tree.files (join (join dir n) (codes "dimm_label"))) [
        | err e ↦ none
        | ok label ↦ if is_empty label then none else some label
      ]
      else none

  unfoldable pub labels_of : Text → List Text
  labels_of dir = elim (tree.read_dir dir) [
    | err e ↦ []
    | ok dimms ↦ sort text_le (rows (label_of dir) (names_in dimms))
  ]

  unfoldable pub controller_row : Text → Text → Option EdacStats
  controller_row root name =
      let dir = join root name in
      if is_controller name
      then some (record {
        controller = name;
        correctable_errors = count dir (codes "ce_count");
        uncorrectable_errors = count dir (codes "ue_count");
        dimm_label = join_labels (labels_of dir);
      })
      else none

  unfoldable pub read_controllers : Text → Result CollectorError (List EdacStats)
  read_controllers root = elim (tree.read_dir root) [
    | err e ↦ err (read root e)
    | ok entries ↦ ok (
        sort (λ a b. text_le a.controller b.controller)
          (rows (controller_row root) (names_in entries)))
  ]
