-- ===== src/Collectors/Disk/Bounds.antt =====
-- The numbers that src/core/collectors/disk.rs reports stay u64.
use blazebee.Base.{
  ℕ, zero, suc, ◌^◌, ◌<◌, ◌≡◌, subst, ok-injective, Option, none, some, List, [], ◌∷◌, ok, arith,
  All, Result-cases, inl, inr,
}
use blazebee.Base.Text.{Text}
use blazebee.Collectors.Procfs.{lines, fields}
use blazebee.Collectors.Counters.{slot, required, required-IsRow}
use blazebee.Collectors.Disk.{
  DiskStats, stats_of, parse_line, parse_lines, parse, with_stats, counter_names, path,
}

pub record IsU64 (s : DiskStats) : Type 0 where
  pub reads_completed : s.reads_completed < 2 ^ 64
  pub reads_merged : s.reads_merged < 2 ^ 64
  pub read_bytes : s.read_bytes < 2 ^ 64
  pub read_time_ms : s.read_time_ms < 2 ^ 64
  pub writes_completed : s.writes_completed < 2 ^ 64
  pub writes_merged : s.writes_merged < 2 ^ 64
  pub written_bytes : s.written_bytes < 2 ^ 64
  pub write_time_ms : s.write_time_ms < 2 ^ 64
  pub io_in_progress : s.io_in_progress < 2 ^ 64
  pub io_time_ms : s.io_time_ms < 2 ^ 64
  pub weighted_io_time_ms : s.weighted_io_time_ms < 2 ^ 64

slot-lt : (v : List ℕ) (i : ℕ) → All (λ x. x < 2 ^ 64) v → slot v i < 2 ^ 64
slot-lt [] i h = omega arith
slot-lt (x ∷ v) zero h = h.0
slot-lt (x ∷ v) (suc i) h = slot-lt v i h.1

stats_of-IsU64 : (device : Text) (v : List ℕ) → All (λ x. x < 2 ^ 64) v → IsU64 (stats_of device v)
stats_of-IsU64 device v h = record {
  reads_completed = slot-lt v 0 h;
  reads_merged = slot-lt v 1 h;
  read_bytes = omega arith;
  read_time_ms = slot-lt v 3 h;
  writes_completed = slot-lt v 4 h;
  writes_merged = slot-lt v 5 h;
  written_bytes = omega arith;
  write_time_ms = slot-lt v 7 h;
  io_in_progress = slot-lt v 8 h;
  io_time_ms = slot-lt v 9 h;
  weighted_io_time_ms = slot-lt v 10 h;
}

abbrev Fits : Option DiskStats → Type 0
Fits none = Unit {0}
Fits (some s) = IsU64 s

parse_line-Fits : (fs : List Text) (o : Option DiskStats) → parse_line fs ≡ ok o → Fits o
unfolding parse_line
parse_line-Fits [] o h = subst Fits (ok-injective none o h) tt
parse_line-Fits (a ∷ []) o h = subst Fits (ok-injective none o h) tt
parse_line-Fits (a ∷ b ∷ []) o h = subst Fits (ok-injective none o h) tt
parse_line-Fits (a ∷ b ∷ device ∷ fs) o h = elim (Result-cases (required path counter_names fs)) [
  | inr (x, e) ↦ cc (rw (parse_line, e) at h)
  | inl (read, e) ↦
      subst Fits (ok-injective (some (stats_of device read.0)) o (rw (parse_line, e) at h))
        (stats_of-IsU64 device read.0 (required-IsRow path counter_names fs read e).1)
]

with_stats-IsU64 :
    (s : Option DiskStats) (rest : List DiskStats)
    → Fits s
    → All IsU64 rest
    → All IsU64 (with_stats s rest)
with_stats-IsU64 none rest h more = more
with_stats-IsU64 (some s) rest h more = (h, more)

parse_lines-IsU64 :
    (ls : List Text) (stats : List DiskStats) → parse_lines ls ≡ ok stats → All IsU64 stats
unfolding parse_lines
parse_lines-IsU64 [] stats h = subst (All IsU64) (ok-injective [] stats h) tt
parse_lines-IsU64 (l ∷ ls) stats h = elim (Result-cases (parse_line (fields l))) [
  | inr (x, e) ↦ cc (rw (parse_lines, e) at h)
  | inl (s, e) ↦ elim (Result-cases (parse_lines ls)) [
    | inr (x, e') ↦ cc (rw (parse_lines, e, e') at h)
    | inl (rest, e') ↦
        subst (All IsU64) (ok-injective (with_stats s rest) stats (rw (parse_lines, e, e') at h))
          (with_stats-IsU64 s rest (parse_line-Fits (fields l) s e) (parse_lines-IsU64 ls rest e'))
  ]
]

-- Whatever the file holds, every number of every device that is reported is a u64: no sector count wraps when
-- it is turned into bytes.
pub parse-IsU64 :
    (content : Text) (stats : List DiskStats) → parse content ≡ ok stats → All IsU64 stats
unfolding parse
parse-IsU64 content stats h = parse_lines-IsU64 (lines content) stats h
