-- ===== src/Collectors/Conntrack.antt =====
-- src/core/collectors/conntrack.rs and entropy.rs, which read files that hold one number. The files are an argument.
use blazebee.Base.{ℕ, Result, ok, err, ◌>>=◌}
use blazebee.Base.Text.{Text, codes}
use blazebee.Error.{not_found}
use blazebee.Collectors.Error.{CollectorError, read, unsupported}
use blazebee.Collectors.Parsing.{Files, read_number}

pub record ConntrackStats : Type 0 where
  pub entries : ℕ
  pub max : ℕ

abbrev pub count_path : Text
count_path = codes "/proc/sys/net/netfilter/nf_conntrack_count"

abbrev pub max_path : Text
max_path = codes "/proc/sys/net/netfilter/nf_conntrack_max"

-- A file that does not exist means that the module is not loaded.
abbrev or_unsupported : Result CollectorError ℕ → Result CollectorError ℕ
or_unsupported (err (read path e)) = elim e.kind [
  | not_found ↦ err (unsupported (codes "nf_conntrack is not loaded"))
  | _ ↦ err (read path e)
]
or_unsupported r = r

unfoldable pub collect : Files → Result CollectorError ConntrackStats
collect files = do
  entries ← or_unsupported (read_number files 64 count_path (codes "nf_conntrack_count"))
  max ← read_number files 64 max_path (codes "nf_conntrack_max")
  ok (record { entries = entries; max = max })

pub record EntropyStats : Type 0 where
  pub available_entropy : ℕ

abbrev pub entropy_path : Text
entropy_path = codes "/proc/sys/kernel/random/entropy_avail"

unfoldable pub collect_entropy : Files → Result CollectorError EntropyStats
collect_entropy files = do
  available ← read_number files 32 entropy_path (codes "entropy_avail")
  ok (record { available_entropy = available })
