-- ===== src/Collectors/Softnet.antt =====
-- src/core/collectors/softnet.rs: `parse` of /proc/net/softnet_stat. A CPU is reported by its number, whose text is
-- `to_string`.
use blazebee.Base.{
  ℕ, ◌+◌, none, some, List, [], ◌∷◌, get_elem?, length, ltb, if◌then◌else◌, Result, ok, ◌>>=◌,
}
use blazebee.Base.Text.{Text, codes}
use blazebee.Collectors.Error.{CollectorError}
use blazebee.Collectors.Procfs.{lines, fields}
use blazebee.Collectors.Procfs.Numbers.{decimal}
use blazebee.Collectors.Parsing.{hex_field}

abbrev path : Text
path = codes "/proc/net/softnet_stat"

pub record SoftnetStats : Type 0 where
  pub cpu : Text
  pub processed : ℕ
  pub dropped : ℕ
  pub time_squeeze : ℕ
  pub received_rps : ℕ
  pub flow_limit_count : ℕ

-- The closure `hex`: a column that is not there counts as 0.
unfoldable pub hex : List Text → ℕ → Text → Result CollectorError ℕ
hex cols i what = elim (get_elem? cols i) [ none ↦ ok 0 | some t ↦ hex_field path what t ]

unfoldable pub parse_line : ℕ → List Text → Result CollectorError SoftnetStats
parse_line cpu cols = do
  processed ← hex cols 0 (codes "processed")
  dropped ← hex cols 1 (codes "dropped")
  time_squeeze ← hex cols 2 (codes "time_squeeze")
  received_rps ← hex cols 9 (codes "received_rps")
  flow_limit_count ← hex cols 10 (codes "flow_limit_count")
  ok (record {
    cpu = decimal cpu;
    processed = processed;
    dropped = dropped;
    time_squeeze = time_squeeze;
    received_rps = received_rps;
    flow_limit_count = flow_limit_count;
  })

-- The loop, with the number of the line; a line of fewer than three columns is passed over.
unfoldable pub parse_lines : ℕ → List Text → Result CollectorError (List SoftnetStats)
parse_lines cpu [] = ok []
parse_lines cpu (l ∷ ls) =
    let rest = parse_lines (cpu + 1) ls in
    if ltb (length (fields l)) 3
    then rest
    else do s ← parse_line cpu (fields l); more ← rest; ok (s ∷ more)

unfoldable pub parse : Text → Result CollectorError (List SoftnetStats)
parse content = parse_lines 0 (lines content)
