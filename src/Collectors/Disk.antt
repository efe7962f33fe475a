-- ===== src/Collectors/Disk.antt =====
-- src/core/collectors/disk.rs: `parse` of /proc/diskstats.
pub mod Bounds
use blazebee.Base.{
  ℕ, zero, suc, ◌+◌, ◌-◌, ◌*◌, ◌^◌, ◌<◌, ◌≡◌, refl, ap, min, Option, none, some, List, [], ◌∷◌,
  length, Result, ok, err, arith, All, Result-cases, inl, inr,
}
use blazebee.Base.Text.{Text, codes}
use blazebee.Collectors.Error.{CollectorError}
use blazebee.Collectors.Procfs.{lines, fields}
use blazebee.Collectors.Counters.{slot, saturating_mul, required, IsRow, required-IsRow}

abbrev pub path : Text
path = codes "/proc/diskstats"

abbrev pub sector_bytes : ℕ
sector_bytes = 512

abbrev pub counter_names : List Text
counter_names =
    codes "reads_completed"
    ∷ codes "reads_merged"
    ∷ codes "sectors_read"
    ∷ codes "read_time_ms"
    ∷ codes "writes_completed"
    ∷ codes "writes_merged"
    ∷ codes "sectors_written"
    ∷ codes "write_time_ms"
    ∷ codes "io_in_progress"
    ∷ codes "io_time_ms"
    ∷ codes "weighted_io_time_ms"
    ∷ []

pub record DiskStats : Type 0 where
  pub device : Text
  pub reads_completed : ℕ
  pub reads_merged : ℕ
  pub read_bytes : ℕ
  pub read_time_ms : ℕ
  pub writes_completed : ℕ
  pub writes_merged : ℕ
  pub written_bytes : ℕ
  pub write_time_ms : ℕ
  pub io_in_progress : ℕ
  pub io_time_ms : ℕ
  pub weighted_io_time_ms : ℕ

abbrev pub stats_of : Text → List ℕ → DiskStats
stats_of device v = record {
  device = device;
  reads_completed = slot v 0;
  reads_merged = slot v 1;
  read_bytes = saturating_mul (slot v 2) sector_bytes;
  read_time_ms = slot v 3;
  writes_completed = slot v 4;
  writes_merged = slot v 5;
  written_bytes = saturating_mul (slot v 6) sector_bytes;
  write_time_ms = slot v 7;
  io_in_progress = slot v 8;
  io_time_ms = slot v 9;
  weighted_io_time_ms = slot v 10;
}

-- One line; `none` is a line that has no device.
unfoldable pub parse_line : List Text → Result CollectorError (Option DiskStats)
parse_line [] = ok none
parse_line (major ∷ []) = ok none
parse_line (major ∷ minor ∷ []) = ok none
parse_line (major ∷ minor ∷ device ∷ fs) = elim (required path counter_names fs) [
  | err e ↦ err e
  | ok read ↦ ok (some (stats_of device read.0))
]

abbrev pub with_stats : Option DiskStats → List DiskStats → List DiskStats
with_stats none rest = rest
with_stats (some s) rest = s ∷ rest

unfoldable pub parse_lines : List Text → Result CollectorError (List DiskStats)
parse_lines [] = ok []
parse_lines (l ∷ ls) = elim (parse_line (fields l)) [
  | err e ↦ err e
  | ok s ↦ elim (parse_lines ls) [ err e ↦ err e | ok rest ↦ ok (with_stats s rest) ]
]

unfoldable pub parse : Text → Result CollectorError (List DiskStats)
parse content = parse_lines (lines content)
