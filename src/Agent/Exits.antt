-- ===== src/Agent/Exits.antt =====
-- How the process of src/main.rs ends.
use blazebee.Base.{
  ◌*◌, ◌==◌, ◌&&◌, not, arith, ◌≡◌, ◌⊎◌, refl, Bool, true, false, Result, ok, err, Bool-cases,
  Result-cases, inl, inr,
}
use blazebee.Base.Text.{Text}
use blazebee.Error.{IoError, TransferError, read_file}
use blazebee.Backoff.{second}
use blazebee.Settings.{Settings, Filters}
use blazebee.Config.Valid.{validate_iff}
use blazebee.Logging.{LoggerError, Layers, init}
use blazebee.Settings.Loading.{Host, LoadingError, load}
use blazebee.Settings.Loading.Outcome.{load-IsSettings}
use blazebee.Serializer.{Codecs}
use blazebee.Publisher.{Client}
use blazebee.Publisher
use blazebee.Connection.Handle.{Link, tcp, tls_default, tls_simple, Start, connect, shutdown_with}
use blazebee.Scheduler.{Collect, Ticker}
use blazebee.Scheduler.Run.{new, launch}
use blazebee.Scheduler.Loop.{stops_in, run-act}
use blazebee.Scheduler.Capacity.{mqtt}
use blazebee.Agent.Capacity.{entries_for_lem}
use blazebee.Agent.Running.{
  success, code, Fate, exited, running, panicked, Process, stop, uses_roots, scheduled, run_agent,
  in_runtime, main,
}
use blazebee.Connection.Handle.Reads.{connect-Reads}

abbrev pub is_err {ℓ} : {E : Type 0} {A : Type ℓ} → Result E A → Bool
is_err (ok a) = false
is_err (err e) = true

module _ (codecs : Codecs) (client : Client) (c : Collect codecs.Value) (t : Ticker)
    {S E F : Type 0} (host : Host S E) (filters : Filters) (built : Text → Bool)
    (process : Process c.Collector client.Queue t.Interval F) where
  -- The configuration is loaded, logging and the runtime are set up.
  abbrev pub SetUp : Settings → Type 0
  SetUp s =
      (load host filters built ≡ ok s)
      × ((layers : Layers) × (init filters process.registry s.logger ≡ ok layers))
      × (process.build_runtime ≡ ok tt)

  -- The transport has started, and the scheduler has not returned.
  abbrev pub Up : Type 0
  Up =
      (s : Settings) × (start : Start) × SetUp s
      × (connect process.fs_read host.is_file s.transport ≡ ok start)
      × (stops_in false process.wakes ≡ false)

  abbrev pub Unusable : Type 0
  Unusable =
      ((e : LoadingError E) × (load host filters built ≡ err e))
      ⊎ ((s : Settings) × (e : LoggerError) × (load host filters built ≡ ok s)
          × (init filters process.registry s.logger ≡ err e))

  abbrev pub Failed : Type 0
  Failed =
      (s : Settings) × (load host filters built ≡ ok s)
      × (((e : IoError) × (process.build_runtime ≡ err e))
          ⊎ ((path : Text) × (io : IoError) × (connect process.fs_read host.is_file s.transport
                ≡ err (read_file path io))
              × (process.fs_read path ≡ err io))
          ⊎ (stops_in false process.wakes ≡ true))

  abbrev pub Exits : Fate → Type 0
  Exits (exited success b) =
      Up × (process.signalled ≡ true) × (b ≡ is_err (shutdown_with process.joined))
  Exits (exited (code n) b) = (b ≡ false) × ((n ≡ 2 × Unusable) ⊎ (n ≡ 1 × Failed))
  Exits running = Up × (process.signalled ≡ false)
  Exits panicked =
      (s : Settings) × (start : Start) × SetUp s
      × (connect process.fs_read host.is_file s.transport ≡ ok start)
      × (start.options.transport ≡ tls_default)
      × (process.has_roots ≡ false)

  stop-Exits :
      (s : Settings) (start : Start) (over signal : Bool)
      (shutdown : Result TransferError (Unit {0}))
      → SetUp s
      → connect process.fs_read host.is_file s.transport ≡ ok start
      → stops_in false process.wakes ≡ over
      → process.signalled ≡ signal
      → shutdown_with process.joined ≡ shutdown
      → Exits (stop over signal shutdown)
  unfolding stop
  stop-Exits s start true signal shutdown u h over _ _ =
      (refl, inr ((refl, (s, u.0, inr (inr over)))))
  stop-Exits s start false false shutdown u h more quiet _ = ((s, start, u, h, more), quiet)
  stop-Exits s start false true (ok v) u h more signal d =
      ((s, start, u, h, more), signal, rw d refl)
  stop-Exits s start false true (err e) u h more signal d =
      ((s, start, u, h, more), signal, rw d refl)

  scheduled-Exits :
      (s : Settings) (start : Start)
      → SetUp s
      → connect process.fs_read host.is_file s.transport ≡ ok start
      → Exits (scheduled codecs client c t host filters built process s start)
  unfolding scheduled launch
  scheduled-Exits s start u h =
      let v = load-IsSettings host filters built s u.0 in
      let (entries, made, x) =
        entries_for_lem built process.make s.metrics.collectors.enabled v.known in
      let period : (s.metrics.collection_interval * second == 0) ≡ false =
        ground (arith, v.interval) in
      let l =
        new (mqtt codecs client) c t (s.metrics.collection_interval * second) process.ticker entries
          (Publisher.new (process.open_queue start.capacity) s.transport) in
      let over =
        (run-act (mqtt codecs client) c t (s.metrics.collection_interval * second) l
          process.wakes).0 in
      rw (scheduled, made, launch, period, over)
        (stop-Exits s start (stops_in false process.wakes) process.signalled
          (shutdown_with process.joined) u h refl refl refl)

  uses_roots-eq : (start : Start) → uses_roots start ≡ true → start.options.transport ≡ tls_default
  uses_roots-eq start h = go start.options.transport refl
    where
      go : (t : Link) → start.options.transport ≡ t → start.options.transport ≡ tls_default
      go tcp e = cc (rw e at h)
      go tls_default e = e
      go (tls_simple ca pair) e = cc (rw e at h)

  run_agent-Exits :
      (s : Settings) → SetUp s → Exits (run_agent codecs client c t host filters built process s)
  unfolding run_agent
  run_agent-Exits s u =
      let v = load-IsSettings host filters built s u.0 in
      let reads =
        connect-Reads process.fs_read host.is_file s.transport
          ((validate_iff host.is_file s.transport).1 v.transport) in
      elim (Result-cases (connect process.fs_read host.is_file s.transport)) [
        | inr (e, h) ↦
            let (path, io, same, refused) = rw h at reads in
            rw (run_agent, h)
              ((refl, inr ((refl, (s, u.0, inr (inl ((path, io, rw same at h, refused))))))))
        | inl (start, h) ↦ elim (Bool-cases (uses_roots start && not process.has_roots)) [
          | inr e ↦ rw (run_agent, h, e) (scheduled-Exits s start u h)
          | inl e ↦
              rw (run_agent, h, e)
                ((s, start, u, h, uses_roots-eq start (ground (arith, e)), ground (arith, e)))
        ]
      ]

  in_runtime-Exits :
      (s : Settings) (r : Result IoError (Unit {0}))
      → load host filters built ≡ ok s
      → ((layers : Layers) × (init filters process.registry s.logger ≡ ok layers))
      → process.build_runtime ≡ r
      → Exits (in_runtime codecs client c t host filters built process r s)
  unfolding in_runtime
  in_runtime-Exits s (err e) h h' r = (refl, inr ((refl, (s, h, inl ((e, r))))))
  in_runtime-Exits s (ok u) h h' r = run_agent-Exits s ((h, h', r))

  -- Of the panics of an unknown collector, of a scheduler with an interval of zero and of TLS without the system's
  -- roots, only the last can come, where TLS relies on those roots and they cannot be loaded. An exit with 2 means
  -- that the configuration could not be loaded or logging not be set up; one with 1 that the runtime could not be
  -- built, a file that TLS needs could not be read, or the wakes before the signal end the scheduler; and success
  -- that everything has started and a signal came first. A shutdown that fails is logged after a signal only. A
  -- process that is still running has started, without a signal or an end of the scheduler.
  pub main-Exits : Exits (main codecs client c t host filters built process)
  unfolding main
  main-Exits = elim (Result-cases (load host filters built)) [
    | inr (e, h) ↦ rw (main, h) ((refl, inl ((refl, inl ((e, h))))))
    | inl (s, h) ↦ elim (Result-cases (init filters process.registry s.logger)) [
      | inr (e, h') ↦ rw (main, h, h') ((refl, inl ((refl, inr ((s, e, h, h'))))))
      | inl (layers, h') ↦
          rw (main, h, h') (in_runtime-Exits s process.build_runtime h ((layers, h')) refl)
    ]
  ]
