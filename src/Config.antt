-- ===== src/Config.antt =====
-- The transport's configuration, crates/mqtt/v3/src/config.rs: the settings, their defaults and their
-- validation. A path is its text, and `Path::is_file` is an argument of the functions that ask it.
pub mod Valid
use blazebee.Base.{
  ℕ, ◌+◌, Bool, true, false, not, ◌&&◌, ◌||◌, Option, none, some, List, [], ◌∷◌, ◌++◌, ltb, leb,
  ◌==◌, if◌then◌else◌, is_some, Result, ok, err, ◌>>=◌, ◌>>◌, refuse,
}
use blazebee.Base.Text.{Text, codes, contains, any, is_empty, is_whitespace, trim, utf8_len}
use blazebee.Error.{ConfigError}

abbrev pub max_packet_size_limit : ℕ
max_packet_size_limit = 268_435_455

abbrev pub min_keep_alive_secs : ℕ
min_keep_alive_secs = 5

-- Secret
pub record Secret : Type 0 where
  pub expose : Text

-- `Debug` of a secret never shows it.
unfoldable pub debug_secret : Secret → Text
debug_secret s = codes "Secret(***)"

pub record TlsConfig : Type 0 where
  pub enabled : Bool
  pub ca_cert_path : Option Text
  pub client_cert_path : Option Text
  pub client_key_path : Option Text

pub data SerializationFormat : Type 0 where
  json message_pack cbor : SerializationFormat

pub data CompressionType : Type 0 where
  uncompressed gzip zstd : CompressionType

unfoldable pub display_format : SerializationFormat → Text
display_format json = codes "json"
display_format message_pack = codes "msgpack"
display_format cbor = codes "cbor"

unfoldable pub display_compression : CompressionType → Text
display_compression uncompressed = codes "none"
display_compression gzip = codes "gzip"
display_compression zstd = codes "zstd"

pub record SerializationConfig : Type 0 where
  pub format : SerializationFormat
  pub compression : CompressionType
  pub compression_threshold : ℕ

pub record FramingConfig : Type 0 where
  pub enabled : Bool

pub record EndpointMetadata : Type 0 where
  pub topic : Text
  pub qos : ℕ
  pub retain : Bool

pub record Config : Type 0 where
  pub base_topic : Text
  pub host : Text
  pub port : ℕ
  pub client_id : Text
  pub username : Option Text
  pub password : Option Secret
  pub clean_session : Bool
  pub keep_alive : ℕ
  pub max_inflight : ℕ
  pub max_packet_size : ℕ
  pub request_channel_capacity : ℕ
  pub tls : TlsConfig
  pub serialization : SerializationConfig
  pub framing : FramingConfig

abbrev pub default_tls : TlsConfig
default_tls = record {
  enabled = false;
  ca_cert_path = none;
  client_cert_path = none;
  client_key_path = none;
}

abbrev pub default_serialization : SerializationConfig
default_serialization = record {
  format = json;
  compression = uncompressed;
  compression_threshold = 1024;
}

abbrev pub default_framing : FramingConfig
default_framing = record { enabled = false }

abbrev pub default_config : Config
default_config = record {
  base_topic = codes "blazebee_mqtt_v3";
  host = codes "localhost";
  port = 1883;
  client_id = [];
  username = none;
  password = none;
  clean_session = false;
  keep_alive = 60;
  max_inflight = 10;
  max_packet_size = 1_048_576;
  request_channel_capacity = 64;
  tls = default_tls;
  serialization = default_serialization;
  framing = default_framing;
}

abbrev pub Checked : Type 0
Checked = Result ConfigError (Unit {0})

-- `ConfigError::new(field, reason)`
abbrev error : Text → Text → ConfigError
error field reason = record { field = field; reason = reason }

unfoldable pub validate_topic_chars : Text → Text → Checked
validate_topic_chars field topic = do
  refuse (ltb 65535 (utf8_len topic)) (error field (codes "must be at most 65535 bytes"))
  refuse (any (λ c. c == b'+' || c == b'#') topic)
      (error field (codes "publish topics must not contain wildcards"))
  refuse (contains topic 0) (error field (codes "must not contain NUL"))
  ok tt

-- EndpointMetadata::validate
unfoldable pub validate_endpoint : EndpointMetadata → Checked
validate_endpoint m = do
  refuse (is_empty m.topic) (error (codes "topic") (codes "must not be empty"))
  validate_topic_chars (codes "topic") m.topic
  refuse (ltb 2 m.qos) (error (codes "qos") (codes "must be 0, 1 or 2"))
  ok tt

unfoldable pub is_enabled : TlsConfig → Bool
is_enabled t = t.enabled || is_some t.ca_cert_path

unfoldable pub has_client_auth : TlsConfig → Bool
has_client_auth t = is_some t.client_cert_path && is_some t.client_key_path

abbrev bool_ne : Bool → Bool → Bool
bool_ne true b = not b
bool_ne false b = b

-- One round of the loop over the three paths.
abbrev check_file : (Text → Bool) → Text → Option Text → Checked
check_file is_file field none = ok tt
check_file is_file field (some path) =
    refuse (not (is_file path)) (error field (path ++ codes " is not a readable file"))

-- TlsConfig::validate
unfoldable pub validate_tls : (Text → Bool) → TlsConfig → Checked
unfolding is_enabled
validate_tls is_file t = if not (is_enabled t) then ok tt else do
  refuse (bool_ne (is_some t.client_cert_path) (is_some t.client_key_path))
      (error (codes "tls") (codes "client_cert_path and client_key_path must be set together"))
  check_file is_file (codes "tls.ca_cert_path") t.ca_cert_path
  check_file is_file (codes "tls.client_cert_path") t.client_cert_path
  check_file is_file (codes "tls.client_key_path") t.client_key_path
  ok tt

-- The checks of `Config::validate` on the connection, in order.
unfoldable pub validate_broker : Config → Checked
validate_broker c = do
  refuse (is_empty (trim c.host) || any is_whitespace (trim c.host))
      (error (codes "host") (codes "must be a host name or IP address"))
  refuse (c.port == 0) (error (codes "port") (codes "must be in 1..=65535"))
  refuse (is_empty c.client_id) (error (codes "client_id") (codes "must not be empty"))
  refuse (contains c.client_id 0) (error (codes "client_id") (codes "must not contain NUL"))
  refuse (ltb c.keep_alive min_keep_alive_secs)
      (error (codes "keep_alive") (codes "must be at least 5 seconds"))
  ok tt

-- Those on the limits and the credentials.
unfoldable pub validate_limits : Config → Checked
validate_limits c = do
  refuse (c.max_inflight == 0) (error (codes "max_inflight") (codes "must be at least 1"))
  refuse (not (leb 64 c.max_packet_size && leb c.max_packet_size max_packet_size_limit))
      (error (codes "max_packet_size") (codes "must be in 64..=268435455 bytes"))
  refuse (c.request_channel_capacity == 0)
      (error (codes "request_channel_capacity") (codes "must be at least 1"))
  refuse (is_some c.password && not (is_some c.username))
      (error (codes "password") (codes "requires username (MQTT 3.1.1)"))
  ok tt

-- Config::validate
unfoldable pub validate : (Text → Bool) → Config → Checked
unfolding validate_broker validate_limits
validate is_file c = do
  validate_broker c
  validate_limits c
  validate_topic_chars (codes "base_topic") c.base_topic
  validate_tls is_file c.tls
  ok tt
