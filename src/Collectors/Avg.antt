-- ===== src/Collectors/Avg.antt =====
-- src/core/collectors/avg.rs: `parse` of /proc/loadavg.
use blazebee.Base.{ℕ, List, [], ◌∷◌, ◌++◌, Result, ok, err, ◌>>=◌, ok_or}
use blazebee.Base.Text.{Text, codes}
use blazebee.Collectors.Error.{CollectorError, parse, missing}
use blazebee.Collectors.Procfs.{fields, parse_field}
use blazebee.Collectors.Parsing.{F64, next_with}
use blazebee.Settings.Expand.{split_at}

abbrev path : Text
path = codes "/proc/loadavg"

pub record LoadAverage (F : Type 0) : Type 0 where
  pub one_minute : F
  pub five_minutes : F
  pub fifteen_minutes : F
  pub running_processes : ℕ
  pub total_processes : ℕ

abbrev next : List Text → Text → Result CollectorError (Text × List Text)
next [] what = err (missing path what)
next (token ∷ rest) what = ok (token, rest)

unfoldable pub parse_file : {F : Type 0} → F64 F → Text → Result CollectorError (LoadAverage F)
parse_file f64 content = do
  one ← next_with f64.from_str (fields content) path (codes "load1")
  five ← next_with f64.from_str one.1 path (codes "load5")
  fifteen ← next_with f64.from_str five.1 path (codes "load15")
  procs ← next fifteen.1 (codes "running/total")
  parts ←
      ok_or (split_at b'/' procs.0)
        (parse path (codes "running/total") (codes "expected 'a/b', got '" ++ procs.0 ++ codes "'"))
  running ← parse_field 32 parts.0 path (codes "running")
  total ← parse_field 32 parts.1 path (codes "total")
  ok (record {
    one_minute = one.0;
    five_minutes = five.0;
    fifteen_minutes = fifteen.0;
    running_processes = running;
    total_processes = total;
  })
