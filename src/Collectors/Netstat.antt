-- ===== src/Collectors/Netstat.antt =====
-- src/core/collectors/netstat.rs: `parse` of /proc/net/netstat.
use blazebee.Base.{ℕ, ◌==◌, none, some, List, [], ◌∷◌, ◌++◌}
use blazebee.Base.Text.{Text, trim_end_matches}
use blazebee.Collectors.Procfs.{lines, fields, parse_uint}

pub record NetstatEntry : Type 0 where
  pub protocol : Text
  pub stat_name : Text
  pub value : ℕ

abbrev pub without_colon : Text → Text
without_colon s = trim_end_matches (λ c. c == b':') s

-- `names.zip(numbers)`, where a number that does not parse is passed over.
unfoldable pub zip_entries : Text → List Text → List Text → List NetstatEntry
zip_entries protocol [] numbers = []
zip_entries protocol (name ∷ names) [] = []
zip_entries protocol (name ∷ names) (value ∷ numbers) =
    let rest = zip_entries protocol names numbers in
    elim (parse_uint 64 value) [
      | none ↦ rest
      | some n ↦ record { protocol = protocol; stat_name = name; value = n } ∷ rest
    ]

-- A line of names and one of values, by their fields.
unfoldable pub group : List Text → List Text → List NetstatEntry
group [] numbers = []
group (protocol ∷ names) [] = []
group (protocol ∷ names) (label ∷ numbers) = zip_entries (without_colon protocol) names numbers

-- The loop takes two lines at a time; a last line alone is not read.
unfoldable pub parse_lines : List Text → List NetstatEntry
parse_lines [] = []
parse_lines (header ∷ []) = []
parse_lines (header ∷ values ∷ ls) = group (fields header) (fields values) ++ parse_lines ls

unfoldable pub parse : Text → List NetstatEntry
parse content = parse_lines (lines content)
