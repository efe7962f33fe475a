-- ===== src/Config/Valid.antt =====
-- What `validate` of crates/mqtt/v3/src/config.rs lets pass.
use blazebee.Base.{
  ◌≤◌, ◌<◌, ◌≡◌, ◌≢◌, ◌↔◌, Bool, true, false, Option, none, some, [], ok, arith, is_some, ◌==◌,
  ◌||◌,
}
use blazebee.Base.Text.{Text, any, contains, trim, is_whitespace, utf8_len, codes, is_empty}
use blazebee.Config.{
  Config, TlsConfig, EndpointMetadata, validate, validate_tls, validate_endpoint,
  validate_topic_chars, validate_broker, validate_limits, is_enabled, max_packet_size_limit,
  check_file,
}

-- A topic that may be published to.
pub record IsTopic (topic : Text) : Type 0 where
  pub short : utf8_len topic ≤ 65535
  pub no_wildcard : any (λ c. c == b'+' || c == b'#') topic ≡ false
  pub no_nul : contains topic 0 ≡ false

validate_topic_chars_iff :
    (field topic : Text) → (validate_topic_chars field topic ≡ ok tt) ↔ IsTopic topic
unfolding validate_topic_chars
validate_topic_chars_iff field topic = ground arith

pub record IsBroker (c : Config) : Type 0 where
  pub named : is_empty (trim c.host) ≡ false
  pub no_space : any is_whitespace (trim c.host) ≡ false
  pub port_set : c.port ≢ 0
  pub id_set : is_empty c.client_id ≡ false
  pub id_no_nul : contains c.client_id 0 ≡ false
  pub keeps_alive : 5 ≤ c.keep_alive

validate_broker_iff : (c : Config) → (validate_broker c ≡ ok tt) ↔ IsBroker c
unfolding validate_broker
validate_broker_iff c = ground arith

pub record IsLimited (c : Config) : Type 0 where
  pub inflight : 0 < c.max_inflight
  pub packet_lo : 64 ≤ c.max_packet_size
  pub packet_hi : c.max_packet_size ≤ max_packet_size_limit
  pub capacity : 0 < c.request_channel_capacity
  pub credentials : is_some c.password ≡ true → is_some c.username ≡ true

validate_limits_iff : (c : Config) → (validate_limits c ≡ ok tt) ↔ IsLimited c
unfolding validate_limits
validate_limits_iff c = ground arith

-- A path that is given names a file.
abbrev pub IsReadable : (Text → Bool) → Option Text → Type 0
IsReadable is_file none = Unit {0}
IsReadable is_file (some path) = is_file path ≡ true

pub record IsTls (is_file : Text → Bool) (t : TlsConfig) : Type 0 where
  pub paired : is_some t.client_cert_path ≡ is_some t.client_key_path
  pub ca : IsReadable is_file t.ca_cert_path
  pub cert : IsReadable is_file t.client_cert_path
  pub key : IsReadable is_file t.client_key_path

check_file_iff :
    (is_file : Text → Bool) (field : Text) (o : Option Text)
    → (check_file is_file field o ≡ ok tt) ↔ IsReadable is_file o
check_file_iff is_file field o = ground arith

validate_tls_iff :
    (is_file : Text → Bool) (t : TlsConfig)
    → (validate_tls is_file t ≡ ok tt) ↔ ((is_enabled t ≡ true) → IsTls is_file t)
unfolding validate_tls
validate_tls_iff is_file t =
    ground (arith, check_file_iff is_file (codes "tls.ca_cert_path") t.ca_cert_path)

-- What a usable transport configuration is.
pub record IsConfig (is_file : Text → Bool) (c : Config) : Type 0 where
  pub broker : IsBroker c
  pub limits : IsLimited c
  pub topic : IsTopic c.base_topic
  pub tls_files : is_enabled c.tls ≡ true → IsTls is_file c.tls

-- `validate` accepts exactly the usable configurations.
pub validate_iff :
    (is_file : Text → Bool) (c : Config) → (validate is_file c ≡ ok tt) ↔ IsConfig is_file c
unfolding validate
validate_iff is_file c = ground (
  arith,
  validate_broker_iff c,
  validate_limits_iff c,
  validate_topic_chars_iff (codes "base_topic") c.base_topic,
  validate_tls_iff is_file c.tls,
)

-- Where a metric may be published.
pub record IsEndpoint (m : EndpointMetadata) : Type 0 where
  pub named : m.topic ≢ []
  pub topic_fits : IsTopic m.topic
  pub qos_fits : m.qos ≤ 2

-- The metadata check accepts exactly the usable endpoints.
pub validate_endpoint_iff : (m : EndpointMetadata) → (validate_endpoint m ≡ ok tt) ↔ IsEndpoint m
unfolding validate_endpoint
validate_endpoint_iff m = ground (arith, validate_topic_chars_iff (codes "topic") m.topic)
