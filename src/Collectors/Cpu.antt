-- ===== src/Collectors/Cpu.antt =====
-- src/core/collectors/cpu.rs: `parse` of /proc/stat.
pub mod Block
use blazebee.Base.{
  ℕ, zero, suc, ◌≡◌, ◌≢◌, refl, Bool, true, false, not, Option, none, some, is_some, List, [], ◌∷◌,
  ◌++◌, take, drop, length, Result, ok, err, arith, All, if◌then◌else◌, Result-cases, Bool-cases,
  inl, inr,
}
use blazebee.Base.Text.{Text, codes, is_empty}
use blazebee.Collectors.Error.{CollectorError, missing}
use blazebee.Collectors.Procfs.{lines, fields}
use blazebee.Collectors.Counters.{slot, required, optional}
use blazebee.Settings.Expand.{strip_prefix}

abbrev path : Text
path = codes "/proc/stat"

-- The names of the fields that every kernel has, and of the later ones.
abbrev first_names : List Text
first_names =
    codes "user"
    ∷ codes "nice"
    ∷ codes "system"
    ∷ codes "idle"
    ∷ codes "iowait"
    ∷ codes "irq"
    ∷ codes "softirq"
    ∷ []

abbrev later_names : List Text
later_names = codes "steal" ∷ codes "guest" ∷ codes "guest_nice" ∷ []

pub record CpuStats : Type 0 where
  pub cpu : Text
  pub user : ℕ
  pub nice : ℕ
  pub system : ℕ
  pub idle : ℕ
  pub iowait : ℕ
  pub irq : ℕ
  pub softirq : ℕ
  pub steal : ℕ
  pub guest : ℕ
  pub guest_nice : ℕ

abbrev stats_of : Text → List ℕ → List ℕ → CpuStats
stats_of cpu v w = record {
  cpu = cpu;
  user = slot v 0;
  nice = slot v 1;
  system = slot v 2;
  idle = slot v 3;
  iowait = slot v 4;
  irq = slot v 5;
  softirq = slot v 6;
  steal = slot w 0;
  guest = slot w 1;
  guest_nice = slot w 2;
}

abbrev first_or_empty : List Text → Text
first_or_empty [] = []
first_or_empty (f ∷ fs) = f

-- One line that starts with `cpu`.
unfoldable pub parse_line : List Text → Result CollectorError CpuStats
parse_line fs = elim (required path first_names (drop 1 fs)) [
  | err e ↦ err e
  | ok read ↦ elim (optional path later_names read.1) [
    | err e ↦ err e
    | ok later ↦ ok (stats_of (first_or_empty fs) read.0 later)
  ]
]

abbrev pub is_cpu_line : Text → Bool
is_cpu_line l = is_some (strip_prefix (codes "cpu") l)

-- The loop: the lines of the CPUs are next to each other, and what follows them is not read.
unfoldable pub parse_lines : List CpuStats → List Text → Result CollectorError (List CpuStats)
parse_lines stats [] = ok stats
parse_lines stats (l ∷ ls) = elim (is_cpu_line l) [
  | false ↦ elim (is_empty stats) [ false ↦ ok stats | true ↦ parse_lines stats ls ]
  | true ↦ elim (parse_line (fields l)) [
    | err e ↦ err e
    | ok s ↦ parse_lines (stats ++ (s ∷ [])) ls
  ]
]

unfoldable pub parse : Text → Result CollectorError (List CpuStats)
parse content = elim (parse_lines [] (lines content)) [
  | err e ↦ err e
  | ok stats ↦ if is_empty stats then err (missing path (codes "cpu lines")) else ok stats
]
