-- ===== src/Agent.antt =====
-- src/main.rs: what a loaded configuration starts.
pub mod Capacity
pub mod Running
pub mod Exits
use blazebee.Base.{ℕ, Bool, true, false, Option, none, some, List, [], ◌∷◌, map, Result, ok, err}
use blazebee.Base.Text.{Text}
use blazebee.Error.{TransferError}
use blazebee.Config.{EndpointMetadata}
use blazebee.Collectors.Registry.{Kind, find}
use blazebee.Settings.{CollectorConfig, Settings}

-- `none` is the panic of `expect`.
unfoldable pub entry_of :
    (Text → Bool)
    → {Collector : Type 0} → (Kind → Collector)
    → CollectorConfig
    → Option (Text × Collector × EndpointMetadata)
entry_of built make e = elim (find built e.name) [
  | none ↦ none
  | some d ↦ some (d.name, make d.build, e.metadata)
]

unfoldable pub entries_for :
    (Text → Bool)
    → {Collector : Type 0} → (Kind → Collector)
    → List CollectorConfig
    → Option (List (Text × Collector × EndpointMetadata))
entries_for built make [] = some []
entries_for built make (e ∷ es) = elim (entry_of built make e) [
  | none ↦ none
  | some entry ↦ elim (entries_for built make es) [ none ↦ none | some rest ↦ some (entry ∷ rest) ]
]
