-- ===== src/Tests/Loading.antt =====
-- Loading a configuration, and what it starts (src/config, src/main.rs, crates/mqtt/v3/src/config.rs).
use blazebee.Base.{
  ℕ, ◌≡◌, ◌↔◌, refl, Bool, true, false, none, some, is_some, List, [], ◌∷◌, ok, arith, All,
}
use blazebee.Base.Text.{
  Text, codes, text_eq, utf8_len, any, contains, trim, trim_matches, trim_start_matches,
  trim_end_matches, is_whitespace,
}
use blazebee.Config.{
  Config, TlsConfig, validate_endpoint, is_enabled, has_client_auth, validate_topic_chars,
  validate_tls,
}
use blazebee.Config
use blazebee.Config.Valid.{IsConfig, IsEndpoint, validate_iff, validate_endpoint_iff}
use blazebee.Connection.{status_offline}
use blazebee.Connection.Handle.{
  options_with, tls_default, status_topic, Start, ReadFile, connect, build_options, build_transport,
  build_tls,
}
use blazebee.Connection.Handle.Setup.{connect-start}
use blazebee.Publisher.{at_least_once}
use blazebee.Collectors.Registry.{Kind, find, find_in, registry}
use blazebee.Settings.{
  Filters, Settings, default_logger, validate, validate_metrics, validate_entries, validate_logger,
  validate_level, check_known, seen_in,
}
use blazebee.Settings.Valid.{IsSettings, validate-IsSettings}
use blazebee.Settings.Expand.{expand, expand-total}
use blazebee.Scheduler.{Collect, Line, entries_of, cycle}
use blazebee.Scheduler.Capacity.{mqtt, overflowed}
use blazebee.Agent.{entries_for}
use blazebee.Agent.Capacity.{IsStart, agent_fits}
use blazebee.Publisher
use blazebee.Tests.Fixtures.{client, codecs, free, queue, settings, endpoint, sample}

abbrev nowhere : Text → Bool
nowhere path = true

validate_iff_example : (Config.validate nowhere settings ≡ ok tt) ↔ IsConfig nowhere settings
validate_iff_example = validate_iff nowhere settings

validate_endpoint_iff_example : (validate_endpoint endpoint ≡ ok tt) ↔ IsEndpoint endpoint
validate_endpoint_iff_example = validate_endpoint_iff endpoint

-- The client's files are given, but no CA.
abbrev certified : Config
certified = record settings {
  tls = record {
    enabled = true;
    ca_cert_path = none;
    client_cert_path = some (codes "c");
    client_key_path = some (codes "k");
  };
}

abbrev files : ReadFile
files path = ok path

abbrev started : Start
started = record {
  options = options_with certified tls_default;
  capacity = 64;
  driver_topic = status_topic certified;
}

starts : connect files nowhere certified ≡ ok started
unfolding connect build_options build_transport build_tls is_enabled Config.validate
    validate_topic_chars validate_tls trim trim_matches trim_start_matches trim_end_matches
    is_whitespace any contains utf8_len Config.validate_broker Config.validate_limits
starts = refl

connect-start_example :
    IsConfig nowhere certified
    × (started.options.last_will ≡ record {
      topic = started.driver_topic;
      qos = at_least_once;
      retain = true;
      payload = status_offline;
    })
    × (true ≡ is_enabled certified.tls)
    × ((false ≡ true) ↔ ((false ≡ true) × (has_client_auth certified.tls ≡ true)))
connect-start_example = connect-start files nowhere certified started starts

abbrev filters : Filters
filters = record { try_new = λ s. ok tt; is_level = λ s. text_eq s (codes "info") }

abbrev all_built : Text → Bool
all_built name = true

abbrev bee : Settings
bee = record {
  logger = default_logger;
  metrics = record {
    collection_interval = 2;
    collectors = record { enabled = record { name = codes "cpu"; metadata = endpoint } ∷ [] };
  };
  transport = settings;
  source = codes "test.toml";
}

valid : validate filters nowhere all_built bee ≡ ok tt
unfolding validate validate_metrics validate_entries validate_logger validate_level check_known
    seen_in find find_in registry text_eq validate_endpoint Config.validate validate_topic_chars
    validate_tls is_enabled trim trim_matches trim_start_matches trim_end_matches is_whitespace any
    contains utf8_len Config.validate_broker Config.validate_limits
valid = refl

validate-IsSettings_example : IsSettings all_built nowhere bee
validate-IsSettings_example = validate-IsSettings filters nowhere all_built bee valid

abbrev bees : Collect (List ℕ)
bees = record { Collector = Kind; collect = λ c. (c, some (ok sample)) }

agent_fits_example :
    (started : List (Text × Kind × _)) × (entries_for all_built
        (λ k. k)
        bee.metrics.collectors.enabled
      ≡ some started)
    × IsStart all_built (λ k. k) bee.metrics.collectors.enabled started
    × All
        (λ (l : Line). overflowed l ≡ false)
        (cycle
          (mqtt codecs client)
          bees
          (Publisher.new (queue 63) settings)
          (entries_of started)).lines
agent_fits_example =
    agent_fits codecs client free bees filters nowhere all_built (λ k. k) bee (queue 63) valid refl
      (omega arith)

expand-total_example :
    is_some (expand (λ name. some (codes "node1")) (codes "a-${HOST}-b $HOST")) ≡ true
expand-total_example = expand-total (λ name. some (codes "node1")) (codes "a-${HOST}-b $HOST")
