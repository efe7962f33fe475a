-- ===== src/Agent/Running.antt =====
-- `main` and `run` of src/main.rs: loading, the set-up, the wait for a signal or the scheduler's return, and the exit
-- code.
use blazebee.Base.{
  ℕ, ◌*◌, Bool, true, false, not, ◌&&◌, Option, none, some, List, Result, ok, err, if◌then◌else◌,
}
use blazebee.Base.Text.{Text}
use blazebee.Error.{IoError, TransferError}
use blazebee.Backoff.{second}
use blazebee.Collectors.Registry.{Kind}
use blazebee.Settings.{Settings, Filters}
use blazebee.Logging.{Registry, init}
use blazebee.Settings.Loading.{Host, load}
use blazebee.Serializer.{Codecs}
use blazebee.Publisher.{Client, Publisher}
use blazebee.Publisher
use blazebee.Connection.Handle.{ReadFile, Start, connect, tls_default, Joined, shutdown_with}
use blazebee.Scheduler.{Collect, Ticker}
use blazebee.Scheduler.Run.{Wake, launch, run}
use blazebee.Scheduler.Capacity.{mqtt}
use blazebee.Agent.{entries_for}

-- std::process::ExitCode
pub data ExitCode : Type 0 where
  success : ExitCode
  code : ℕ → ExitCode

-- How the process ends: with an exit code, and whether the shutdown of MQTT is logged as failed; or not yet; or by a
-- panic.
pub data Fate : Type 0 where
  exited : ExitCode → Bool → Fate
  running panicked : Fate

-- `RumqttTransport::tls_with_default_config` was called, which loads the certificates of the system's roots.
abbrev pub uses_roots : Start → Bool
uses_roots start = elim start.options.transport [ tls_default ↦ true | _ ↦ false ]

-- What the process meets. Without `has_roots` the loading of the system's roots, which is code of rumqttc, panics. The
-- wakes are those that the scheduler gets before the signal, should there be one: the wait for the signal is polled
-- first. `joined` is how the driver's task ends when it is shut down.
pub record Process (Collector Queue Interval F : Type 0) : Type 0 where
  pub make : Kind → Collector
  pub registry : Registry
  pub build_runtime : Result IoError (Unit {0})
  pub fs_read : ReadFile
  pub has_roots : Bool
  pub open_queue : ℕ → Queue
  pub ticker : Interval
  pub wakes : List (Wake F)
  pub signalled : Bool
  pub joined : Option Joined

-- By whether the scheduler has returned and whether a signal has come. A failed shutdown does not change the exit
-- code, and is logged after a signal only.
unfoldable pub stop : Bool → Bool → Result TransferError (Unit {0}) → Fate
stop true signalled shutdown = exited (code 1) false
stop false true (err e) = exited success true
stop false true (ok u) = exited success false
stop false false shutdown = running

module _ (codecs : Codecs) (client : Client) (c : Collect codecs.Value) (t : Ticker)
    {S E F : Type 0} (host : Host S E) (filters : Filters) (built : Text → Bool)
    (process : Process c.Collector client.Queue t.Interval F) where
  -- `run` from the started transport on; Duration counts nanoseconds.
  unfoldable pub scheduled : Settings → Start → Fate
  scheduled s start = elim (entries_for built process.make s.metrics.collectors.enabled) [
    | none ↦ panicked
    | some entries ↦
        let interval = s.metrics.collection_interval * second in
        let publisher = Publisher.new (process.open_queue start.capacity) s.transport in
        elim (launch (mqtt codecs client) c t interval process.ticker entries publisher) [
          | none ↦ panicked
          | some scheduler ↦
              stop (run (mqtt codecs client) c t interval scheduler process.wakes).1
                process.signalled (shutdown_with process.joined)
        ]
  ]

  -- `run`, with the configuration.
  unfoldable pub run_agent : Settings → Fate
  run_agent s = elim (connect process.fs_read host.is_file s.transport) [
    | err e ↦ exited (code 1) false
    | ok start ↦ if uses_roots start && not process.has_roots then panicked else scheduled s start
  ]

  -- From the building of the runtime on.
  unfoldable pub in_runtime : Result IoError (Unit {0}) → Settings → Fate
  in_runtime (err e) s = exited (code 1) false
  in_runtime (ok u) s = run_agent s

  unfoldable pub main : Fate
  main = elim (load host filters built) [
    | err e ↦ exited (code 2) false
    | ok s ↦ elim (init filters process.registry s.logger) [
      | err e ↦ exited (code 2) false
      | ok layers ↦ in_runtime process.build_runtime s
    ]
  ]
