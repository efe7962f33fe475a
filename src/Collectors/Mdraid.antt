-- ===== src/Collectors/Mdraid.antt =====
-- src/core/collectors/mdraid.rs: `parse` of /proc/mdstat. `str::parse::<f64>` is an argument. The counts of members are
-- those of one line, which a u32 holds.
pub mod Arrays
use blazebee.Base.{
  ℕ, ◌+◌, ◌-◌, Bool, true, false, not, ◌&&◌, ◌||◌, Option, none, some, List, [], ◌∷◌, ◌++◌, drop,
  ltb, is_some, and_then, if◌then◌else◌,
}
use blazebee.Base.Text.{Text, codes, contains, is_empty, text_eq, trim}
use blazebee.Collectors.Procfs.{lines, fields, parse_uint}
use blazebee.Collectors.Search.{starts_with, find, contains_text, trim_start, before}
use blazebee.Settings.Expand.{split_at}

pub record MdRaidStats (F : Type 0) : Type 0 where
  pub device : Text
  pub level : Text
  pub state : Text
  pub active_devices : ℕ
  pub total_devices : ℕ
  pub failed_devices : ℕ
  pub spare_devices : ℕ
  pub degraded : Bool
  pub sync_action : Option Text
  pub sync_progress : Option F

unfoldable pub is_level : Text → Bool
is_level token =
    starts_with (codes "raid") token
    || text_eq token (codes "linear")
    || text_eq token (codes "multipath")
    || text_eq token (codes "faulty")

-- What the loop over the tokens of an array's first line gathers.
pub record Heading : Type 0 where
  pub state : Text
  pub level : Text
  pub failed : ℕ
  pub spare : ℕ
  pub members : ℕ

abbrev pub no_heading : Heading
no_heading = record { state = []; level = []; failed = 0; spare = 0; members = 0 }

unfoldable pub take_token : Heading → Text → Heading
take_token h token =
    if contains token b'['
    then record h {
      members = h.members + 1;
      failed = h.failed + (if contains_text (codes "(F)") token then 1 else 0);
      spare = h.spare + (if contains_text (codes "(S)") token then 1 else 0);
    }
    else if is_empty h.level && is_level token
    then record h { level = token }
    else if is_empty h.level
    then record h { state = if is_empty h.state then token else h.state ++ (32 ∷ token) }
    else h

unfoldable pub take_tokens : Heading → List Text → Heading
take_tokens h [] = h
take_tokens h (token ∷ tokens) = take_tokens (take_token h token) tokens

abbrev pub first_or_empty : List Text → Text
first_or_empty [] = []
first_or_empty (f ∷ fs) = f

unfoldable pub is_heading : Text → Bool
is_heading line = starts_with (codes "md") line && contains_text (codes " : ") line

-- The array that a first line begins.
unfoldable pub new_array : (F : Type 0) → List Text → MdRaidStats F
new_array F fs =
    let h = take_tokens no_heading (drop 2 fs) in
    record {
      device = first_or_empty fs;
      level = h.level;
      state = h.state;
      active_devices = h.members - h.failed - h.spare;
      total_devices = h.members;
      failed_devices = h.failed;
      spare_devices = h.spare;
      degraded = false;
      sync_action = none;
      sync_progress = none;
    }

-- "[n/m]" in a line with blocks.
unfoldable pub geometry : Text → Option (ℕ × ℕ)
geometry trimmed = and_then (find (codes " [") trimmed) (λ start.
    and_then (split_at b'/' start.1) (λ slash. and_then (split_at b']' slash.1) (λ bracket.
      and_then (parse_uint 32 slash.0)
        (λ n. and_then (parse_uint 32 bracket.0) (λ m. some (n, m))))))

abbrev pub actions : List Text
actions = codes "recovery" ∷ codes "resync" ∷ codes "reshape" ∷ codes "check" ∷ []

-- `last_mut`
abbrev pub at_last {ℓ} : {A : Type ℓ} → (A → A) → List A → List A
at_last f [] = []
at_last f (s ∷ []) = f s ∷ []
at_last f (s ∷ t ∷ ss) = s ∷ at_last f (t ∷ ss)

module _ {F : Type 0} (parse_f64 : Text → Option F) where
  abbrev pub percent : Text → Option F
  percent after = parse_f64 (trim (before b'%' (trim_start after)))

  -- The loop over the actions.
  unfoldable pub take_action : Text → List Text → MdRaidStats F → MdRaidStats F
  take_action trimmed [] s = s
  take_action trimmed (action ∷ actions) s =
      let rest = take_action trimmed actions s in
      elim (find (action ++ codes " =") trimmed) [
        | none ↦ rest
        | some parts ↦ record s { sync_action = some action; sync_progress = percent parts.1 }
      ]

  -- A line below an array's first line.
  unfoldable pub amend : Text → MdRaidStats F → MdRaidStats F
  amend trimmed s =
      if contains_text (codes " blocks ") trimmed
      then elim (geometry trimmed) [
        | none ↦ s
        | some (n, m) ↦ record s { total_devices = n; active_devices = m; degraded = ltb m n }
      ]
      else take_action trimmed actions s

  unfoldable pub parse_lines : List (MdRaidStats F) → List Text → List (MdRaidStats F)
  parse_lines stats [] = stats
  parse_lines stats (line ∷ ls) =
      parse_lines
        (if is_heading line
          then stats ++ (new_array F (fields line) ∷ [])
          else at_last (amend (trim_start line)) stats)
        ls

  unfoldable pub parse : Text → List (MdRaidStats F)
  parse content = parse_lines [] (lines content)
