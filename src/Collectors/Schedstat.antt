-- ===== src/Collectors/Schedstat.antt =====
-- src/core/collectors/schedstat.rs: `parse` of /proc/schedstat.
use blazebee.Base.{
  ℕ, ◌-◌, none, some, List, [], ◌∷◌, ◌++◌, drop, length, ltb, Result, ok, ◌>>=◌, ◌>>◌, refuse,
}
use blazebee.Base.Text.{Text, codes}
use blazebee.Collectors.Error.{CollectorError, parse}
use blazebee.Collectors.Procfs.{lines, fields, parse_field}
use blazebee.Collectors.Procfs.Numbers.{decimal}
use blazebee.Settings.Expand.{strip_prefix}

abbrev path : Text
path = codes "/proc/schedstat"

pub record SchedstatCpu : Type 0 where
  pub cpu : Text
  pub running_ns : ℕ
  pub run_delay_ns : ℕ
  pub timeslices : ℕ

abbrev first_or_empty : List Text → Text
first_or_empty [] = []
first_or_empty (f ∷ fs) = f

abbrev nth : List Text → ℕ → Text
nth ts i = first_or_empty (drop i ts)

-- What follows `cpu` in a line, by its fields: the last three values count.
unfoldable pub parse_line : List Text → Result CollectorError SchedstatCpu
parse_line fs = do
  let values = drop 1 fs
  refuse (ltb (length values) 9) (
      parse path (codes "cpu line")
        (codes "expected at least 9 fields, got " ++ decimal (length values)))
  let tail = drop (length values - 3) values
  running ← parse_field 64 (nth tail 0) path (codes "running_ns")
  delay ← parse_field 64 (nth tail 1) path (codes "run_delay_ns")
  slices ← parse_field 64 (nth tail 2) path (codes "timeslices")
  ok (record {
    cpu = first_or_empty fs;
    running_ns = running;
    run_delay_ns = delay;
    timeslices = slices;
  })

unfoldable pub parse_lines : List Text → Result CollectorError (List SchedstatCpu)
parse_lines [] = ok []
parse_lines (l ∷ ls) =
    let rest = parse_lines ls in
    elim (strip_prefix (codes "cpu") l) [
      | none ↦ rest
      | some after ↦ do s ← parse_line (fields after); more ← rest; ok (s ∷ more)
    ]

unfoldable pub parse_file : Text → Result CollectorError (List SchedstatCpu)
parse_file content = parse_lines (lines content)
