-- ===== src/Collectors/Processes.antt =====
-- src/core/collectors/processes.rs: `parse` of /proc/stat, for the processes and the context switches.
use blazebee.Base.{
  ℕ, ◌+◌, Option, none, some, List, [], ◌∷◌, ltb, if◌then◌else◌, Result, ok, err, ◌>>=◌,
}
use blazebee.Base.Text.{Text, codes, text_eq}
use blazebee.Collectors.Error.{CollectorError, missing}
use blazebee.Collectors.Procfs.{lines, fields, next_field}

abbrev path : Text
path = codes "/proc/stat"

pub record ProcessStats : Type 0 where
  pub total_processes : ℕ
  pub running_processes : ℕ
  pub blocked_processes : ℕ
  pub context_switches : ℕ

abbrev pub no_stats : ProcessStats
no_stats = record {
  total_processes = 0;
  running_processes = 0;
  blocked_processes = 0;
  context_switches = 0;
}

-- The slot that a key names.
unfoldable pub slot_of : Text → Option (ℕ → ProcessStats → ProcessStats)
slot_of key =
    if text_eq key (codes "processes")
    then some (λ n s. record s { total_processes = n })
    else if text_eq key (codes "procs_running")
    then some (λ n s. record s { running_processes = n })
    else if text_eq key (codes "procs_blocked")
    then some (λ n s. record s { blocked_processes = n })
    else if text_eq key (codes "ctxt")
    then some (λ n s. record s { context_switches = n })
    else none

-- A line, by its fields, with the number of lines found.
unfoldable pub take_line : ProcessStats × ℕ → List Text → Result CollectorError (ProcessStats × ℕ)
take_line (s, found) [] = ok (s, found)
take_line (s, found) (key ∷ fs) = elim (slot_of key) [
  | none ↦ ok (s, found)
  | some set ↦ do n ← next_field 64 fs path key; ok (set n.0 s, found + 1)
]

unfoldable pub take_lines : ProcessStats × ℕ → List Text → Result CollectorError (ProcessStats × ℕ)
take_lines f [] = ok f
take_lines f (l ∷ ls) = take_line f (fields l) >>= λ f'. take_lines f' ls

unfoldable pub parse : Text → Result CollectorError ProcessStats
parse content = do
  f ← take_lines (no_stats, 0) (lines content)
  if ltb f.1 4
      then err (missing path (codes "processes/procs_running/procs_blocked/ctxt"))
      else ok f.0
