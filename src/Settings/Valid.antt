-- ===== src/Settings/Valid.antt =====
-- What the validation of src/config lets pass.
use blazebee.Base.{
  ◌+◌, ◌≤◌, ◌≡◌, ◌≢◌, ap, Bool, true, false, List, [], ◌∷◌, map, length, ok, arith, All, All-map,
  All-of-map, is_some, Bool-cases, inl, inr,
}
use blazebee.Base.Text.{Text, is_empty, text_eq, text_eq_refl}
use blazebee.Config.Valid.{IsEndpoint, IsConfig, validate_endpoint_iff, validate_iff}
use blazebee.Config.{validate_endpoint}
use blazebee.Collectors.Registry.{find}
use blazebee.Settings.{
  CollectorConfig, enabled_names, seen_in, validate_entries, validate_metrics, Filters, Settings,
  check_known, validate,
}

-- No text of the list occurs in it again.
abbrev pub Unique : List Text → Type 0
Unique [] = Unit {0}
Unique (x ∷ xs) = All (λ y. x ≢ y) xs × Unique xs

abbrev Fresh : List Text → List CollectorConfig → Type 0
Fresh seen es = All (λ (e : CollectorConfig). All (λ x. x ≢ e.name) seen) es

pub record IsEntry (e : CollectorConfig) : Type 0 where
  pub named : is_empty e.name ≡ false
  pub endpoint : IsEndpoint e.metadata

text_eq_ne : (s t : Text) → text_eq s t ≡ false → s ≢ t
text_eq_ne s t h e = cc (h, ap (text_eq s) e, text_eq_refl s)

seen_in_lem :
    (seen : List Text) (name : Text) → seen_in seen name ≡ false → All (λ x. x ≢ name) seen
unfolding seen_in
seen_in_lem [] name h = tt
seen_in_lem (x ∷ xs) name h = elim (Bool-cases (text_eq x name)) [
  | inl e ↦ cc (rw e at h)
  | inr e ↦ (text_eq_ne x name e, seen_in_lem xs name (rw e at h))
]

validate_entries_cons :
    (seen : List Text) (e : CollectorConfig) (es : List CollectorConfig)
    → validate_entries seen (e ∷ es) ≡ ok tt
    → (is_empty e.name ≡ false)
      × (seen_in seen e.name ≡ false)
      × (validate_endpoint e.metadata ≡ ok tt)
      × (validate_entries (e.name ∷ seen) es ≡ ok tt)
unfolding validate_entries
validate_entries_cons seen e es h = ground arith

-- The names of the entries are new to `seen`, and different from each other.
validate_entries_lem :
    (seen : List Text) (es : List CollectorConfig)
    → validate_entries seen es ≡ ok tt
    → All IsEntry es × Unique (map (λ e. e.name) es) × Fresh seen es
validate_entries_lem seen [] h = (tt, tt, tt)
validate_entries_lem seen (e ∷ es) h =
    let (named, new, good, later) = validate_entries_cons seen e es h in
    let (entries, unique, fresh) = validate_entries_lem (e.name ∷ seen) es later in
    (
      (record { named = named; endpoint = (validate_endpoint_iff e.metadata).0 good }, entries),
      (All-of-map (λ y. e.name ≢ y) (λ e. e.name) es (All-map (λ x f. f.0) es fresh), unique),
      (seen_in_lem seen e.name new, All-map (λ x f. f.1) es fresh),
    )

-- What a configuration is that the agent runs with.
pub record IsSettings (built is_file : Text → Bool) (s : Settings) : Type 0 where
  pub interval : 1 ≤ s.metrics.collection_interval
  pub some_enabled : s.metrics.collectors.enabled ≢ []
  pub entries : All IsEntry s.metrics.collectors.enabled
  pub unique : Unique (enabled_names s.metrics)
  pub known :
      All (λ (e : CollectorConfig). is_some (find built e.name) ≡ true) s.metrics.collectors.enabled
  pub transport : IsConfig is_file s.transport
  pub capacity : length s.metrics.collectors.enabled + 1 ≤ s.transport.request_channel_capacity

check_known_lem :
    (filters : Filters) (is_file built : Text → Bool) (es : List CollectorConfig)
    → check_known filters is_file built es ≡ ok tt
    → All (λ (e : CollectorConfig). is_some (find built e.name) ≡ true) es
unfolding check_known
check_known_lem filters is_file built [] h = tt
check_known_lem filters is_file built (e ∷ es) h =
    ground (arith, check_known_lem filters is_file built es)

-- Every configuration that passes has a positive interval and known, distinct, publishable collectors, a
-- usable transport, and a queue with room for one sample of each collector and the status message.
pub validate-IsSettings :
    (filters : Filters) (is_file built : Text → Bool) (s : Settings)
    → validate filters is_file built s ≡ ok tt
    → IsSettings built is_file s
unfolding validate validate_metrics
validate-IsSettings filters is_file built s h = ground (
  arith,
  validate_entries_lem [] s.metrics.collectors.enabled,
  check_known_lem filters is_file built s.metrics.collectors.enabled,
  validate_iff is_file s.transport,
)
