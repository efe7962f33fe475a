-- ===== src/Collectors/Stat.antt =====
-- src/core/collectors/stat.rs: `parse` of /proc/stat, for the time of the boot, forks and interrupts.
use blazebee.Base.{ℕ, ◌+◌, List, [], ◌∷◌, ltb, if◌then◌else◌, Result, ok, err, ◌>>=◌}
use blazebee.Base.Text.{Text, codes, text_eq}
use blazebee.Collectors.Error.{CollectorError, missing}
use blazebee.Collectors.Procfs.{lines, fields, next_field}
use blazebee.Collectors.Parsing.{ℤ, pos, parse_int, next_with}

abbrev path : Text
path = codes "/proc/stat"

pub record StatGlobalStats : Type 0 where
  pub boot_time : ℤ
  pub total_forks : ℕ
  pub total_interrupts : ℕ

abbrev pub no_stats : StatGlobalStats
no_stats = record { boot_time = pos 0; total_forks = 0; total_interrupts = 0 }

-- The statistics so far, with the number of lines found.
abbrev pub Found : Type 0
Found = StatGlobalStats × ℕ

-- A line, by its fields.
unfoldable pub take_line : Found → List Text → Result CollectorError Found
take_line (s, found) [] = ok (s, found)
take_line (s, found) (key ∷ fs) =
    if text_eq key (codes "btime")
    then (do
      n ← next_with (parse_int 64) fs path (codes "btime")
      ok (record s { boot_time = n.0 }, found + 1))
    else if text_eq key (codes "processes")
    then (do
      n ← next_field 64 fs path (codes "processes")
      ok (record s { total_forks = n.0 }, found + 1))
    else if text_eq key (codes "intr")
    then (do
      n ← next_field 64 fs path (codes "intr")
      ok (record s { total_interrupts = n.0 }, found + 1))
    else ok (s, found)

unfoldable pub take_lines : Found → List Text → Result CollectorError Found
take_lines f [] = ok f
take_lines f (l ∷ ls) = take_line f (fields l) >>= λ f'. take_lines f' ls

unfoldable pub parse : Text → Result CollectorError StatGlobalStats
parse content = do
  f ← take_lines (no_stats, 0) (lines content)
  if ltb f.1 3 then err (missing path (codes "btime/processes/intr")) else ok f.0
