-- ===== src/Collectors/Ram.antt =====
-- src/core/collectors/ram.rs: `parse` of /proc/meminfo.
use blazebee.Base.{
  ℕ, Bool, false, ◌||◌, Option, none, some, List, [], ◌∷◌, if◌then◌else◌, Result, ok, err, ◌>>=◌,
}
use blazebee.Base.Text.{Text, codes, text_eq}
use blazebee.Collectors.Error.{CollectorError, missing}
use blazebee.Collectors.Procfs.{lines, fields, parse_field}
use blazebee.Settings.Expand.{split_at}

abbrev path : Text
path = codes "/proc/meminfo"

pub record MemoryStats : Type 0 where
  pub mem_total : ℕ
  pub mem_free : ℕ
  pub mem_available : ℕ
  pub buffers : ℕ
  pub cached : ℕ
  pub swap_total : ℕ
  pub swap_free : ℕ

abbrev pub no_stats : MemoryStats
no_stats = record {
  mem_total = 0;
  mem_free = 0;
  mem_available = 0;
  buffers = 0;
  cached = 0;
  swap_total = 0;
  swap_free = 0;
}

-- The slot that a key names.
unfoldable pub slot_of : Text → Option (ℕ → MemoryStats → MemoryStats)
slot_of key =
    if text_eq key (codes "MemTotal")
    then some (λ n s. record s { mem_total = n })
    else if text_eq key (codes "MemFree")
    then some (λ n s. record s { mem_free = n })
    else if text_eq key (codes "MemAvailable")
    then some (λ n s. record s { mem_available = n })
    else if text_eq key (codes "Buffers")
    then some (λ n s. record s { buffers = n })
    else if text_eq key (codes "Cached")
    then some (λ n s. record s { cached = n })
    else if text_eq key (codes "SwapTotal")
    then some (λ n s. record s { swap_total = n })
    else if text_eq key (codes "SwapFree")
    then some (λ n s. record s { swap_free = n })
    else none

-- The statistics so far, and whether the total was seen.
abbrev pub Seen : Type 0
Seen = MemoryStats × Bool

-- A key with the fields that follow it.
unfoldable pub take_entry : Seen → Text → List Text → Result CollectorError Seen
take_entry (s, seen) key fs = elim (slot_of key) [
  | none ↦ ok (s, seen)
  | some set ↦ elim fs [
    | [] ↦ ok (s, seen)
    | token ∷ rest ↦ do
      n ← parse_field 64 token path (codes "memory counter")
      ok (set n s, seen || text_eq key (codes "MemTotal"))
  ]
]

unfoldable pub take_line : Seen → Text → Result CollectorError Seen
take_line t line = elim (split_at b':' line) [
  | none ↦ ok t
  | some parts ↦ take_entry t parts.0 (fields parts.1)
]

unfoldable pub take_lines : Seen → List Text → Result CollectorError Seen
take_lines t [] = ok t
take_lines t (l ∷ ls) = take_line t l >>= λ t'. take_lines t' ls

unfoldable pub parse : Text → Result CollectorError MemoryStats
parse content = do
  t ← take_lines (no_stats, false) (lines content)
  if t.1 then ok t.0 else err (missing path (codes "MemTotal"))
