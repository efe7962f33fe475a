-- ===== src/Collectors/Ipvs.antt =====
-- src/core/collectors/ipvs.rs: `parse` of /proc/net/ip_vs_stats.
use blazebee.Base.{ℕ, none, some, List, [], ◌∷◌, get_elem?, Result, ok, err}
use blazebee.Base.Text.{Text, codes}
use blazebee.Collectors.Error.{CollectorError, missing}
use blazebee.Collectors.Procfs.{lines, fields}
use blazebee.Collectors.Counters.{slot}
use blazebee.Collectors.Parsing.{hex_field}

abbrev path : Text
path = codes "/proc/net/ip_vs_stats"

pub record IpvsStats : Type 0 where
  pub connections : ℕ
  pub incoming_packets : ℕ
  pub outgoing_packets : ℕ
  pub incoming_bytes : ℕ
  pub outgoing_bytes : ℕ

abbrev pub total_names : List Text
total_names =
    codes "conns"
    ∷ codes "in_packets"
    ∷ codes "out_packets"
    ∷ codes "in_bytes"
    ∷ codes "out_bytes"
    ∷ []

-- The loop over the array of totals.
unfoldable pub hex_row : List Text → List Text → Result CollectorError (List ℕ)
hex_row [] fs = ok []
hex_row (what ∷ names) [] = err (missing path what)
hex_row (what ∷ names) (token ∷ fs) = elim (hex_field path what token) [
  | err e ↦ err e
  | ok n ↦ elim (hex_row names fs) [ err e ↦ err e | ok more ↦ ok (n ∷ more) ]
]

unfoldable pub parse : Text → Result CollectorError IpvsStats
parse content = elim (get_elem? (lines content) 2) [
  | none ↦ err (missing path (codes "totals line"))
  | some line ↦ elim (hex_row total_names (fields line)) [
    | err e ↦ err e
    | ok v ↦ ok (record {
      connections = slot v 0;
      incoming_packets = slot v 1;
      outgoing_packets = slot v 2;
      incoming_bytes = slot v 3;
      outgoing_bytes = slot v 4;
    })
  ]
]
