-- ===== src/Collectors/Thermal/Zones.antt =====
-- The report of src/core/collectors/thermal.rs.
use mathlib.Core.List.{Perm}
use blazebee.Base.{
  ◌≡◌, refl, true, Option, none, some, Option-cases, List, [], ◌∷◌, Result, ok, err, Result-cases,
  Bool-cases, inl, inr,
}
use blazebee.Base.Text.{Text, codes}
use blazebee.Error.{IoError}
use blazebee.Collectors.Error.{CollectorError, read}
use blazebee.Collectors.Parsing.{ℤ, Reals, per_thousand, parse_int, read_trimmed}
use blazebee.Collectors.Search.{starts_with}
use blazebee.Collectors.Sysfs.{Tree, join, text_or_empty, names_in, rows}
use blazebee.Collectors.Sysfs.Sorted.{Sorted, sort-Sorted, sort-perm, text_le_total}
use blazebee.Collectors.Thermal.{ThermalZoneInfo, zone, before, read_zones}

module _ {F : Type 0} (reals : Reals F) (tree : Tree) (root : Text) where
  -- An entry of the directory that is a zone with a temperature in millidegrees.
  pub record IsZone (name : Text) (z : ThermalZoneInfo F) : Type 0 where
    pub named : starts_with (codes "thermal_zone") name ≡ true
    pub raw : Text
    pub millidegrees : ℤ
    pub readable : read_trimmed tree.files (join (join root name) (codes "temp")) ≡ ok raw
    pub whole : parse_int 64 raw ≡ some millidegrees
    pub zone_id_is : z.zone_id ≡ name
    pub zone_type_is : z.zone_type ≡ text_or_empty tree (join (join root name) (codes "type"))
    pub temperature_is : z.temperature ≡ per_thousand reals (reals.of_i64 millidegrees)

  -- The zones among the names, in order; a name is passed over only if it is none.
  pub data Zones : List Text → List (ThermalZoneInfo F) → Type 0 where
    end : Zones [] []
    take :
        {name : Text} {names : List Text} {z : ThermalZoneInfo F} {zs : List (ThermalZoneInfo F)}
        → IsZone name z
        → Zones names zs
        → Zones (name ∷ names) (z ∷ zs)
    pass :
        {name : Text} {names : List Text} {zs : List (ThermalZoneInfo F)}
        → ((z : ThermalZoneInfo F) → ¬ IsZone name z)
        → Zones names zs
        → Zones (name ∷ names) zs

  zone-some :
      (name : Text) (z : ThermalZoneInfo F) → zone reals tree root name ≡ some z → IsZone name z
  unfolding zone
  zone-some name z h = elim (Bool-cases (starts_with (codes "thermal_zone") name)) [
    | inr other ↦ cc (rw (zone, other) at h)
    | inl named ↦
        elim (Result-cases (read_trimmed tree.files (join (join root name) (codes "temp")))) [
          | inr (e, bad) ↦ cc (rw (zone, named, bad) at h)
          | inl (raw, good) ↦ elim (Option-cases (parse_int 64 raw)) [
            | inl broken ↦ cc (rw (zone, named, good, broken) at h)
            | inr (n, whole) ↦
                let same = rw (zone, named, good, whole) at h in
                record {
                  named = named;
                  raw = raw;
                  millidegrees = n;
                  readable = good;
                  whole = whole;
                  zone_id_is = cc;
                  zone_type_is = cc;
                  temperature_is = cc;
                }
          ]
        ]
  ]

  zone-none :
      (name : Text) (z : ThermalZoneInfo F) → zone reals tree root name ≡ none → ¬ IsZone name z
  unfolding zone
  zone-none name z h is = cc (rw (zone, is.named, is.readable, is.whole) at h)

  rows-Zones : (names : List Text) → Zones names (rows (zone reals tree root) names)
  unfolding rows
  rows-Zones [] = end
  rows-Zones (name ∷ names) = elim (Option-cases (zone reals tree root name)) [
    | inl none_here ↦
        rw (rows, none_here) (pass (λ z. zone-none name z none_here) (rows-Zones names))
    | inr (z, found) ↦ rw (rows, found) (take (zone-some name z found) (rows-Zones names))
  ]

  -- By what reading the directory gives.
  abbrev pub IsReport :
      Result IoError (List (Option Text))
      → Result CollectorError (List (ThermalZoneInfo F))
      → Type 0
  IsReport (err e) r = r ≡ err (read root e)
  IsReport (ok entries) (err e) = ⊥
  IsReport (ok entries) (ok zones) =
      Sorted (before reals tree) zones
      × ((found : List (ThermalZoneInfo F)) × Zones (names_in entries) found × Perm zones found)

  zones-IsReport :
      (entries : Result IoError (List (Option Text)))
      → tree.read_dir root ≡ entries
      → IsReport entries (read_zones reals tree root)
  unfolding read_zones
  zones-IsReport (err e) h = rw (read_zones, h) refl
  zones-IsReport (ok entries) h =
      rw (read_zones, h)
        ((
          sort-Sorted (before reals tree) (rows (zone reals tree root) (names_in entries))
              (λ a b. text_le_total a.zone_id b.zone_id),
          (
            rows (zone reals tree root) (names_in entries),
            rows-Zones (names_in entries),
            sort-perm (before reals tree) (rows (zone reals tree root) (names_in entries)),
          ),
        ))

  -- If the directory can be read, the report holds one zone for each entry whose name starts with thermal_zone and
  -- whose temperature can be read as an i64 of millidegrees, and nothing else, sorted by the names. Otherwise the
  -- error is that of the directory.
  pub read_zones-IsReport : IsReport (tree.read_dir root) (read_zones reals tree root)
  read_zones-IsReport = zones-IsReport (tree.read_dir root) refl
