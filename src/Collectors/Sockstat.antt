-- ===== src/Collectors/Sockstat.antt =====
-- src/core/collectors/sockstat.rs: `parse` of /proc/net/sockstat.
use blazebee.Base.{ℕ, none, some, List, [], ◌∷◌, ◌++◌}
use blazebee.Base.Text.{Text}
use blazebee.Collectors.Procfs.{lines, fields, parse_uint}
use blazebee.Collectors.Netstat.{without_colon}

pub record SockstatEntry : Type 0 where
  pub protocol : Text
  pub metric : Text
  pub value : ℕ

-- The loop takes two fields at a time; a value that does not parse is passed over.
unfoldable pub pairs : Text → List Text → List SockstatEntry
pairs protocol [] = []
pairs protocol (metric ∷ []) = []
pairs protocol (metric ∷ value ∷ fs) =
    let rest = pairs protocol fs in
    elim (parse_uint 64 value) [
      | none ↦ rest
      | some n ↦ record { protocol = protocol; metric = metric; value = n } ∷ rest
    ]

abbrev of_line : List Text → List SockstatEntry
of_line [] = []
of_line (protocol ∷ fs) = pairs (without_colon protocol) fs

unfoldable pub parse_lines : List Text → List SockstatEntry
parse_lines [] = []
parse_lines (l ∷ ls) = of_line (fields l) ++ parse_lines ls

unfoldable pub parse : Text → List SockstatEntry
parse content = parse_lines (lines content)
