-- ===== src/Connection/Handle.antt =====
-- The handle `Transport` of crates/mqtt/v3/src/connection.rs: what a connection is built from, and how its
-- end is reported. `rumqttc::MqttOptions` is the settings that it is given.
pub mod Reads
pub mod Setup
use blazebee.Base.{
  ℕ, ◌*◌, Bool, true, false, not, Option, none, some, List, [], ◌∷◌, ◌++◌, if◌then◌else◌, Result,
  ok, err, ◌>>=◌, ◌>>◌, map_err,
}
use blazebee.Base.Text.{Text, codes, trim}
use blazebee.Error.{TransferError, IoError, closed, read_file}
use blazebee.Config.{Config, TlsConfig, Secret, validate, is_enabled}
use blazebee.Framer.{Bytes}
use blazebee.Publisher.{Request, at_least_once, join_topic}
use blazebee.Connection.{status_offline}

-- rumqttc::Transport: plain, TLS with the system's roots, or TLS with a CA and perhaps a client's
-- certificate and key.
pub data Link : Type 0 where
  tcp tls_default : Link
  tls_simple : Bytes → Option (Bytes × Bytes) → Link

pub record Options : Type 0 where
  pub client_id : Text
  pub host : Text
  pub port : ℕ
  pub keep_alive_secs : ℕ
  pub clean_session : Bool
  pub inflight : ℕ
  pub max_incoming_packet_size : ℕ
  pub max_outgoing_packet_size : ℕ
  pub last_will : Request
  pub credentials : Option (Text × Text)
  pub transport : Link

abbrev pub ReadFile : Type 0
ReadFile = Text → Result IoError Bytes

abbrev pub status_topic : Config → Text
status_topic c = join_topic c.base_topic (codes "status")

abbrev pub exposed : Option Secret → Text
exposed none = []
exposed (some p) = p.expose

abbrev pub credentials_of : Config → Option Text → Option (Text × Text)
credentials_of c none = none
credentials_of c (some username) = some (username, exposed c.password)

-- The options, once the transport is known.
abbrev pub options_with : Config → Link → Options
options_with c transport = record {
  client_id = c.client_id;
  host = trim c.host;
  port = c.port;
  keep_alive_secs = c.keep_alive;
  clean_session = c.clean_session;
  inflight = c.max_inflight;
  max_incoming_packet_size = c.max_packet_size;
  max_outgoing_packet_size = c.max_packet_size;
  last_will = record {
    topic = status_topic c;
    qos = at_least_once;
    retain = true;
    payload = status_offline;
  };
  credentials = credentials_of c c.username;
  transport = transport;
}

-- What `Transport::connect` hands to the client, and the status topic of the driver that it spawns.
pub record Start : Type 0 where
  pub options : Options
  pub capacity : ℕ
  pub driver_topic : Text

module _ (fs_read : ReadFile) where
  -- `read`: an error names the path.
  abbrev pub read : Text → Result TransferError Bytes
  read path = map_err (read_file path) (fs_read path)

  unfoldable pub read_client_auth :
      Option Text → Option Text → Result TransferError (Option (Bytes × Bytes))
  read_client_auth (some cert) (some key) = do
    cert_pem ← read cert
    key_pem ← read key
    ok (some (cert_pem, key_pem))
  read_client_auth _ _ = ok none

  unfoldable pub build_tls : TlsConfig → Option Text → Result TransferError Link
  build_tls tls none = ok tls_default
  build_tls tls (some ca_path) = do
    ca ← read ca_path
    client_auth ← read_client_auth tls.client_cert_path tls.client_key_path
    ok (tls_simple ca client_auth)

  unfoldable pub build_transport : Config → Result TransferError Link
  build_transport c = if not (is_enabled c.tls) then ok tcp else build_tls c.tls c.tls.ca_cert_path

  unfoldable pub build_options : Config → Result TransferError Options
  build_options c = do transport ← build_transport c; ok (options_with c transport)

  unfoldable pub connect : (Text → Bool) → Config → Result TransferError Start
  connect is_file c = do
    map_err TransferError.config (validate is_file c)
    options ← build_options c
    ok (record {
      options = options;
      capacity = c.request_channel_capacity;
      driver_topic = status_topic c;
    })

-- How the driver's task is joined: with its result, or after a panic.
pub data Joined : Type 0 where
  result : Result TransferError (Unit {0}) → Joined
  join_error : Joined

-- Transport::closed
unfoldable pub closed_with : Joined → Result TransferError (Unit {0})
closed_with (result r) = r
closed_with join_error = err closed

-- Transport::shutdown, with `none` for a driver that did not stop in time and is aborted.
unfoldable pub shutdown_with : Option Joined → Result TransferError (Unit {0})
shutdown_with (some (result r)) = r
shutdown_with (some join_error) = err closed
shutdown_with none = ok tt
