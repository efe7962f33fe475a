-- ===== src/Error.antt =====
-- The transport's errors (crates/mqtt/v3/src/error.rs), and the errors of the standard library and
-- of `rumqttc` as far as the program tells them apart: each variant that a pattern of the program
-- names, and one constructor for the rest.
use blazebee.Base.{ℕ}
use blazebee.Base.Text.{Text}

pub data IoErrorKind : Type 0 where
  addr_in_use permission_denied invalid_input invalid_data not_found other_kind : IoErrorKind

pub record IoError : Type 0 where
  pub kind : IoErrorKind
  pub message : Text

-- `std::error::Error::source`: an error's message, with the error that caused it.
pub data Chain : Type 0 where
  root : Text → Chain
  caused : Text → Chain → Chain

pub data ConnectReturnCode : Type 0 where
  success refused_protocol_version bad_client_id service_unavailable : ConnectReturnCode
  bad_user_name_password not_authorized : ConnectReturnCode

pub data StateError : Type 0 where
  invalid_state empty_subscription other_state : StateError

pub data Fault : Type 0 where
  tls not_conn_ack requests_done : Fault
  connection_refused : ConnectReturnCode → Fault
  io : IoErrorKind → Fault
  mqtt_state : StateError → Fault
  other_fault : Fault

-- rumqttc::ConnectionError, as `is_fatal` and `root_cause` see it.
pub record ConnectionError : Type 0 where
  pub fault : Fault
  pub chain : Chain

-- rumqttc::ClientError, whose request the program drops.
pub data ClientError : Type 0 where
  try_request request : ClientError

pub record ConfigError : Type 0 where
  pub field : Text
  pub reason : Text

pub data TransferError : Type 0 where
  config : ConfigError → TransferError
  read_file : Text → IoError → TransferError
  serialization : Text → TransferError
  compression : IoError → TransferError
  payload_too_large : ℕ → ℕ → TransferError
  invalid_qos : ℕ → TransferError
  framing : Text → TransferError
  queue_full closed : TransferError
  connection : ConnectionError → TransferError

-- `From<rumqttc::ClientError>`.
unfoldable pub from_client_error : ClientError → TransferError
from_client_error ClientError.try_request = queue_full
from_client_error ClientError.request = closed
