-- ===== src/Settings.antt =====
-- The agent's configuration, src/config: the metrics and logger sections, and the checks across the sections.
-- `EnvFilter` and `LevelFilter` of tracing_subscriber are arguments.
pub mod Expand
pub mod Tree
pub mod Loading
pub mod Valid
use blazebee.Base.{
  ℕ, ◌+◌, Bool, true, false, not, ◌&&◌, ◌||◌, Option, none, some, List, [], ◌∷◌, ◌++◌, map, length,
  ltb, ◌==◌, if◌then◌else◌, is_some, Result, ok, err, ◌>>=◌, ◌>>◌, map_err, refuse,
}
use blazebee.Base.Text.{Text, codes, contains, is_empty, text_eq}
use blazebee.Error.{ConfigError}
use blazebee.Config
use blazebee.Config.{EndpointMetadata, validate_endpoint}
use blazebee.Collectors.Registry.{find, names}

pub record CollectorConfig : Type 0 where
  pub name : Text
  pub metadata : EndpointMetadata

pub record CollectorsConfig : Type 0 where
  pub enabled : List CollectorConfig

pub record MetricsConfig : Type 0 where
  pub collection_interval : ℕ
  pub collectors : CollectorsConfig

abbrev pub default_metrics : MetricsConfig
default_metrics = record { collection_interval = 5; collectors = record { enabled = [] } }

abbrev pub enabled_names : MetricsConfig → List Text
enabled_names m = map (λ (e : CollectorConfig). e.name) m.collectors.enabled

abbrev pub Checked : Type 0
Checked = Result Text (Unit {0})

-- `HashSet::insert` is refused for a member.
unfoldable pub seen_in : List Text → Text → Bool
seen_in [] name = false
seen_in (x ∷ xs) name = text_eq x name || seen_in xs name

abbrev about : Text → Text → Text
about name rest = codes "metrics: collector '" ++ (name ++ (codes "'" ++ rest))

abbrev show_error : ConfigError → Text
show_error e = codes "transport." ++ e.field ++ (codes ": " ++ e.reason)

unfoldable pub validate_entries : List Text → List CollectorConfig → Checked
validate_entries seen [] = ok tt
validate_entries seen (e ∷ es) = do
  refuse (is_empty e.name) (codes "metrics: collector name must not be empty")
  refuse (seen_in seen e.name) (about e.name (codes " is enabled twice"))
  map_err (λ x. about e.name (codes ": " ++ show_error x)) (validate_endpoint e.metadata)
  validate_entries (e.name ∷ seen) es

-- MetricsConfig::validate
unfoldable pub validate_metrics : MetricsConfig → Checked
validate_metrics m = do
  refuse (m.collection_interval == 0)
      (codes "metrics.collection_interval must be at least 1 second")
  refuse (is_empty m.collectors.enabled) (codes "metrics: at least one collector must be enabled")
  validate_entries [] m.collectors.enabled

pub data LogFormat : Type 0 where
  compact pretty json : LogFormat

pub data TimestampFormat : Type 0 where
  rfc3339 unix : TimestampFormat

pub record ConsoleConfig : Type 0 where
  pub enabled : Bool
  pub format : LogFormat
  pub show_target : Bool
  pub show_thread_ids : Bool
  pub show_spans : Bool
  pub ansi_colors : Bool

pub record JournaldConfig : Type 0 where
  pub enabled : Bool
  pub identifier : Text

pub record LoggerConfig : Type 0 where
  pub level : Text
  pub timestamp_format : TimestampFormat
  pub console : ConsoleConfig
  pub journald : JournaldConfig

abbrev pub default_console : ConsoleConfig
default_console = record {
  enabled = true;
  format = compact;
  show_target = false;
  show_thread_ids = false;
  show_spans = false;
  ansi_colors = true;
}

abbrev pub default_journald : JournaldConfig
default_journald = record { enabled = false; identifier = codes "blazebee" }

abbrev pub default_logger : LoggerConfig
default_logger = record {
  level = codes "info";
  timestamp_format = rfc3339;
  console = default_console;
  journald = default_journald;
}

-- tracing_subscriber: `EnvFilter::try_new`, with its error's text, and `str::parse::<LevelFilter>`.
pub record Filters : Type 0 where
  pub try_new : Text → Result Text (Unit {0})
  pub is_level : Text → Bool

module _ (filters : Filters) where
  unfoldable pub validate_level : Text → Checked
  validate_level level =
      if contains level b'=' || contains level b','
      then map_err (λ e. codes "logger.level: " ++ e) (filters.try_new level)
      else refuse (not (filters.is_level level))
          (codes "logger.level: '" ++ (level ++ codes "' is not a log level"))

  -- LoggerConfig::validate
  unfoldable pub validate_logger : LoggerConfig → Checked
  validate_logger l = do
    validate_level l.level
    refuse (l.journald.enabled && is_empty l.journald.identifier)
        (codes "logger.journald.identifier must not be empty")
    ok tt

-- The errors of loading. A name that is not known comes with those that are; the registry is already in the
-- order that `sort_unstable` gives.
pub data LoadError : Type 0 where
  invalid : Text → LoadError
  transport : ConfigError → LoadError
  unknown_collector : Text → List Text → LoadError
  capacity : ℕ → LoadError

pub record Settings : Type 0 where
  pub logger : LoggerConfig
  pub metrics : MetricsConfig
  pub transport : Config.Config
  pub source : Text

module _ (filters : Filters) (is_file built : Text → Bool) where
  -- The loop over the enabled collectors' names.
  unfoldable pub check_known : List CollectorConfig → Result LoadError (Unit {0})
  check_known [] = ok tt
  check_known (e ∷ es) = do
    refuse (not (is_some (find built e.name))) (unknown_collector e.name (names built))
    check_known es

  -- Config::validate
  unfoldable pub validate : Settings → Result LoadError (Unit {0})
  validate s = do
    map_err invalid (validate_logger filters s.logger)
    map_err invalid (validate_metrics s.metrics)
    check_known s.metrics.collectors.enabled
    map_err LoadError.transport (Config.validate is_file s.transport)
    let needed = length s.metrics.collectors.enabled + 1
    refuse (ltb s.transport.request_channel_capacity needed) (capacity needed)
    ok tt
