-- ===== src/Connection/Driver.antt =====
-- The driver task, `Driver::run` and `Driver::disconnect` of crates/mqtt/v3/src/connection.rs. The
-- environment (the event loop, the timers and the shutdown channel) chooses the input at each await.
pub mod States
pub mod Retries
pub mod Flushing
pub mod Closing
use blazebee.Base.{
  ℕ, Bool, true, false, Option, none, some, List, [], ◌∷◌, ◌++◌, if◌then◌else◌, Result, ok, err,
}
use blazebee.Base.Text.{Text, codes}
use blazebee.Error.{TransferError, ConnectionError, ConnectReturnCode, success}
use blazebee.Floats.{Floats}
use blazebee.Backoff.{Backoff, reset, next_delay}
use blazebee.Publisher.{Client, Request, at_least_once}
use blazebee.Connection.{
  ConnectionState, connecting, connected, disconnected, reconnecting, fatal_exit, is_connected,
  state_eq, is_fatal, root_cause, status_online, status_offline,
}

-- What `eventloop.poll()` returns: an acknowledgement, the DISCONNECT that was written, any other event,
-- or an error.
pub data Polled : Type 0 where
  conn_ack : ConnectReturnCode → Polled
  disconnect_sent : Polled
  other_event : Polled
  failed : ConnectionError → Polled

-- What an await can return. `shutdown` is the shutdown channel, fired or dropped; `deadline` is the end of
-- the grace period.
pub data Input : Type 0 where
  shutdown : Input
  polled : Polled → Input
  slept : Input
  deadline : Input

-- Where the task awaits, or how it ended; `panicked` is a panic of `next_delay`.
pub data Phase : Type 0 where
  polling : Phase
  sleeping : ℕ → Phase
  flushing : Phase
  done : Result TransferError (Unit {0}) → Phase
  panicked : Phase

module _ (fl : Floats) (client : Client) where
  open client use {Queue, try_publish, try_disconnect}

  -- `changes` are the states that the watch channel announced, the latest first; its head is the current one.
  pub record Driver : Type 0 where
    pub queue : Queue
    pub state : ConnectionState fl.F
    pub changes : List (ConnectionState fl.F)
    pub backoff : Backoff fl
    pub status_topic : Text

  -- `send_if_modified`
  unfoldable pub set_state : Driver → ConnectionState fl.F → Driver
  set_state d next =
      if state_eq fl.eq d.state next
      then d
      else record d { state = next; changes = next ∷ d.changes }

  abbrev pub status_request : Driver → Text → Request
  status_request d status = record {
    topic = d.status_topic;
    qos = at_least_once;
    retain = true;
    payload = status;
  }

  -- The answer is logged, or dropped.
  unfoldable pub publish_status : Driver → Text → Driver
  publish_status d status = record d { queue = (try_publish d.queue (status_request d status)).0 }

  abbrev queue_disconnect : Driver → Driver
  queue_disconnect d = record d { queue = (try_disconnect d.queue).0 }

  abbrev reset_backoff : Driver → Driver
  reset_backoff d = record d { backoff = reset fl d.backoff }

  -- A CONNACK while the task polls.
  unfoldable pub on_conn_ack : Driver → ConnectReturnCode → Driver
  on_conn_ack d success = publish_status (set_state (reset_backoff d) connected) status_online
  on_conn_ack d _ = d

  -- An error while the task polls.
  unfoldable pub retry : Driver → Text → Option (Backoff fl × ℕ) → Driver × Phase
  retry d reason none = (d, panicked)
  retry d reason (some (backoff, delay)) = (
    set_state (set_state (record d { backoff = backoff }) (disconnected reason))
        (reconnecting (fl.as_secs delay)),
    sleeping delay,
  )

  unfoldable pub on_error : Driver → ConnectionError → Driver × Phase
  on_error d e =
      let reason = root_cause e.chain in
      if is_fatal e.fault
      then (set_state d (fatal_exit reason), done (err (TransferError.connection e)))
      else retry d reason (next_delay fl d.backoff)

  unfoldable pub on_poll : Driver → Polled → Driver × Phase
  on_poll d (conn_ack code) = (on_conn_ack d code, polling)
  on_poll d disconnect_sent = (d, polling)
  on_poll d other_event = (d, polling)
  on_poll d (failed e) = on_error d e

  -- `disconnect` up to its loop, and after it.
  unfoldable pub finish : Driver → Driver × Phase
  finish d = (set_state d (disconnected (codes "shutdown")), done (ok tt))

  unfoldable pub begin_disconnect : Driver → Driver × Phase
  begin_disconnect d =
      if is_connected d.state
      then (queue_disconnect (publish_status d status_offline), flushing)
      else finish d

  unfoldable pub on_flush : Driver → Polled → Driver × Phase
  on_flush d disconnect_sent = finish d
  on_flush d (failed e) = finish d
  on_flush d (conn_ack code) = (d, flushing)
  on_flush d other_event = (d, flushing)

  -- One await. An input that the task does not wait for is left alone.
  unfoldable pub step : Driver × Phase → Input → Driver × Phase
  step (d, polling) shutdown = begin_disconnect d
  step (d, polling) (polled p) = on_poll d p
  step (d, sleeping delay) shutdown = (d, done (ok tt))
  step (d, sleeping delay) slept = (d, polling)
  step (d, flushing) (polled p) = on_flush d p
  step (d, flushing) deadline = finish d
  step (d, phase) _ = (d, phase)

  unfoldable pub run : Driver × Phase → List Input → Driver × Phase
  run s [] = s
  run s (i ∷ is) = run (step s i) is

  -- The driver that `Transport::connect` spawns.
  unfoldable pub start : Queue → Backoff fl → Text → Driver × Phase
  start queue backoff status_topic = (
    record {
      queue = queue;
      state = connecting;
      changes = connecting ∷ [];
      backoff = backoff;
      status_topic = status_topic;
    },
    polling,
  )
