-- ===== src/Collectors/Cpu/Block.antt =====
-- Which lines of /proc/stat src/core/collectors/cpu.rs reads.
use blazebee.Base.{List, [], ◌∷◌, ◌++◌, Result, ok, err}
use blazebee.Base.Text.{Text}
use blazebee.Collectors.Error.{CollectorError}
use blazebee.Collectors.Procfs.{fields}
use blazebee.Collectors.Cpu.{CpuStats, parse_line}

-- Every line read on its own, up to the first that fails.
unfoldable pub rows_of : List Text → Result CollectorError (List CpuStats)
rows_of [] = ok []
rows_of (l ∷ ls) = elim (parse_line (fields l)) [
  | err e ↦ err e
  | ok s ↦ elim (rows_of ls) [ err e ↦ err e | ok rest ↦ ok (s ∷ rest) ]
]

abbrev after :
    List CpuStats → Result CollectorError (List CpuStats) → Result CollectorError (List CpuStats)
after stats (ok rows) = ok (stats ++ rows)
after stats (err e) = err e
