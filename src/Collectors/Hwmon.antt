-- ===== src/Collectors/Hwmon.antt =====
-- src/core/collectors/hwmon.rs: `read_sensors`. The arithmetic of `f64` is an argument.
use blazebee.Base.{Bool, Option, none, some, List, [], ◌∷◌, ◌++◌, Result, ok, err, if◌then◌else◌}
use blazebee.Base.Text.{Text, codes, text_eq}
use blazebee.Collectors.Error.{CollectorError, read}
use blazebee.Collectors.Parsing.{Reals, per_thousand, parse_int, read_trimmed}
use blazebee.Collectors.Search.{starts_with}
use blazebee.Collectors.Sysfs.{Tree, join, text_or_empty, text_le, sort, names_in, rows}

pub record HwmonSensor (F : Type 0) : Type 0 where
  pub name : Text
  pub chip : Text
  pub sensor : Text
  pub label : Text
  pub value : F
  pub unit : Text

-- `str::strip_suffix`
unfoldable pub strip_suffix : Text → Text → Option Text
strip_suffix suffix [] = if text_eq [] suffix then some [] else none
strip_suffix suffix (c ∷ s) =
    let rest = strip_suffix suffix s in
    if text_eq (c ∷ s) suffix
    then some []
    else elim rest [ none ↦ none | some front ↦ some (c ∷ front) ]

-- The name of a sensor's file without its end.
unfoldable pub sensor_of : Text → Option Text
sensor_of file_name = elim (strip_suffix (codes "_input") file_name) [
  | none ↦ none
  | some s ↦ if starts_with (codes "temp") s then some s else none
]

module _ {F : Type 0} (reals : Reals F) (tree : Tree) where
  -- The body of the inner loop.
  unfoldable pub sensor_row : Text → Text → Text → Text → Option (HwmonSensor F)
  sensor_row name dir chip file_name = elim (sensor_of file_name) [
    | none ↦ none
    | some sensor ↦ elim (read_trimmed tree.files (join dir file_name)) [
      | err e ↦ none
      | ok raw ↦ elim (parse_int 64 raw) [
        | none ↦ none
        | some millidegrees ↦ some (record {
          name = name;
          chip = chip;
          sensor = sensor;
          label = text_or_empty tree (join dir (sensor ++ codes "_label"));
          value = per_thousand reals (reals.of_i64 millidegrees);
          unit = codes "C";
        })
      ]
    ]
  ]

  -- The sensors of one device.
  unfoldable pub device_rows : Text → Text → List (HwmonSensor F)
  device_rows root name =
      let dir = join root name in
      elim (tree.read_dir dir) [
        | err e ↦ []
        | ok files ↦
            let chip = text_or_empty tree (join dir (codes "name")) in
            rows (sensor_row name dir chip) (names_in files)
      ]

  unfoldable pub all_rows : Text → List Text → List (HwmonSensor F)
  all_rows root [] = []
  all_rows root (name ∷ names) = device_rows root name ++ all_rows root names

  -- The order of pairs.
  abbrev pub before : HwmonSensor F → HwmonSensor F → Bool
  before a b = if text_eq a.name b.name then text_le a.sensor b.sensor else text_le a.name b.name

  unfoldable pub read_sensors : Text → Result CollectorError (List (HwmonSensor F))
  read_sensors root = elim (tree.read_dir root) [
    | err e ↦ err (read root e)
    | ok devices ↦ ok (sort before (all_rows root (names_in devices)))
  ]
