-- ===== src/Collectors/Thermal.antt =====
-- src/core/collectors/thermal.rs: `read_zones`. The arithmetic of `f64` is an argument.
pub mod Zones
use blazebee.Base.{Bool, Option, none, some, List, [], ◌∷◌, Result, ok, err, if◌then◌else◌}
use blazebee.Base.Text.{Text, codes}
use blazebee.Collectors.Error.{CollectorError, read}
use blazebee.Collectors.Parsing.{Reals, per_thousand, parse_int, read_trimmed}
use blazebee.Collectors.Search.{starts_with}
use blazebee.Collectors.Sysfs.{Tree, join, text_or_empty, text_le, sort, names_in, rows}

pub record ThermalZoneInfo (F : Type 0) : Type 0 where
  pub zone_id : Text
  pub zone_type : Text
  pub temperature : F

module _ {F : Type 0} (reals : Reals F) (tree : Tree) where
  -- The body of the loop; `none` is an entry that it passes over.
  unfoldable pub zone : Text → Text → Option (ThermalZoneInfo F)
  zone root name =
      let dir = join root name in
      if starts_with (codes "thermal_zone") name
      then elim (read_trimmed tree.files (join dir (codes "temp"))) [
        | err e ↦ none
        | ok raw ↦ elim (parse_int 64 raw) [
          | none ↦ none
          | some millidegrees ↦ some (record {
            zone_id = name;
            zone_type = text_or_empty tree (join dir (codes "type"));
            temperature = per_thousand reals (reals.of_i64 millidegrees);
          })
        ]
      ]
      else none

  abbrev pub before : ThermalZoneInfo F → ThermalZoneInfo F → Bool
  before a b = text_le a.zone_id b.zone_id

  unfoldable pub read_zones : Text → Result CollectorError (List (ThermalZoneInfo F))
  read_zones root = elim (tree.read_dir root) [
    | err e ↦ err (read root e)
    | ok entries ↦ ok (sort before (rows (zone root) (names_in entries)))
  ]
