-- ===== src/Connection.antt =====
-- crates/mqtt/v3/src/connection.rs: the connection's state and the classification of errors. The driver
-- task and the handle are the children.
pub mod Driver
pub mod Handle
use blazebee.Base.{
  ℕ, Bool, true, false, not, ◌||◌, ◌&&◌, Option, none, some, List, [], ◌∷◌, ◌++◌, ◌==◌,
  if◌then◌else◌, Result, ok, err,
}
use blazebee.Base.Text.{Text, codes, text_eq, trim_matches}
use blazebee.Error.{
  TransferError, ConnectionError, Chain, root, caused, Fault, ConnectReturnCode, success,
  refused_protocol_version, bad_client_id, service_unavailable, bad_user_name_password,
  not_authorized, StateError, invalid_state, empty_subscription, other_state, IoErrorKind,
  addr_in_use, permission_denied, invalid_input, invalid_data, not_found, other_kind,
}
use blazebee.Floats.{Floats}
use blazebee.Backoff.{Backoff, reset, next_delay}
use blazebee.Publisher.{Client, Request, at_least_once}

abbrev pub status_online : Text
status_online = codes "online"

abbrev pub status_offline : Text
status_offline = codes "offline"

-- The seconds of `reconnecting` are an `f64`.
pub data ConnectionState (F : Type 0) : Type 0 where
  connecting connected : ConnectionState F
  disconnected : Text → ConnectionState F
  reconnecting : F → ConnectionState F
  fatal_exit : Text → ConnectionState F

unfoldable pub is_connected : {F : Type 0} → ConnectionState F → Bool
is_connected connected = true
is_connected _ = false

unfoldable pub is_fatal_state : {F : Type 0} → ConnectionState F → Bool
is_fatal_state (fatal_exit reason) = true
is_fatal_state _ = false

-- `Display`; `show` prints an `f64` with one decimal.
unfoldable pub display : {F : Type 0} → (F → Text) → ConnectionState F → Text
display show connecting = codes "connecting"
display show connected = codes "connected"
display show (disconnected reason) = codes "disconnected (" ++ (reason ++ codes ")")
display show (reconnecting secs) = codes "reconnecting in " ++ (show secs ++ codes " s")
display show (fatal_exit reason) = codes "fatal (" ++ (reason ++ codes ")")

-- The derived `==`, over that of the seconds.
unfoldable pub state_eq :
    {F : Type 0} → (F → F → Bool) → ConnectionState F → ConnectionState F → Bool
unfolding text_eq
state_eq eq connecting connecting = true
state_eq eq connected connected = true
state_eq eq (disconnected a) (disconnected b) = text_eq a b
state_eq eq (reconnecting a) (reconnecting b) = eq a b
state_eq eq (fatal_exit a) (fatal_exit b) = text_eq a b
state_eq eq _ _ = false

abbrev refusal_is_fatal : ConnectReturnCode → Bool
refusal_is_fatal success = false
refusal_is_fatal refused_protocol_version = true
refusal_is_fatal bad_client_id = true
refusal_is_fatal service_unavailable = false
refusal_is_fatal bad_user_name_password = true
refusal_is_fatal not_authorized = true

abbrev io_is_fatal : IoErrorKind → Bool
io_is_fatal addr_in_use = true
io_is_fatal permission_denied = true
io_is_fatal invalid_input = true
io_is_fatal invalid_data = false
io_is_fatal not_found = false
io_is_fatal other_kind = false

abbrev state_is_fatal : StateError → Bool
state_is_fatal invalid_state = true
state_is_fatal empty_subscription = true
state_is_fatal other_state = false

unfoldable pub is_fatal : Fault → Bool
is_fatal Fault.tls = true
is_fatal Fault.not_conn_ack = true
is_fatal Fault.requests_done = true
is_fatal (Fault.connection_refused code) = refusal_is_fatal code
is_fatal (Fault.io kind) = io_is_fatal kind
is_fatal (Fault.mqtt_state e) = state_is_fatal e
is_fatal Fault.other_fault = false

-- The innermost message; `trim_matches` takes the quotes off.
innermost : Chain → Text
innermost (root message) = message
innermost (caused message source) = innermost source

unfoldable pub root_cause : Chain → Text
unfolding innermost
root_cause chain = trim_matches (λ c. c == b'"') (innermost chain)
