-- ===== src/Connection/Driver/Retries.antt =====
-- The driver task reconnects for as long as it is not told to stop (crates/mqtt/v3/src/connection.rs).
use blazebee.Base.{ℕ, ◌≤◌, ◌≡◌, inl, inr, ◌∙◌, false, List, [], ◌∷◌, All}
use blazebee.Error.{ConnectionError, ConnectReturnCode, success}
use blazebee.Floats.{Floats, Lawful}
use blazebee.Backoff.{Backoff, reset}
use blazebee.Backoff.Delays.{IsSteady, Band, Waits, next_delay-Waits}
use blazebee.Backoff.Starts.{reset-IsSteady}
use blazebee.Publisher.{Client}
use blazebee.Connection.Driver.States.{set_state-keeps}
use blazebee.Connection.{
  ConnectionState, connected, disconnected, reconnecting, is_fatal, root_cause,
}
use blazebee.Connection.Driver.{
  Driver, Phase, polling, sleeping, flushing, Input, shutdown, polled, slept, conn_ack,
  disconnect_sent, other_event, failed, set_state, on_conn_ack, retry, on_error, on_poll, step, run,
  publish_status,
}

-- An input that neither asks the task to stop nor reports an error that a new connection cannot fix.
abbrev pub IsOrdinary : Input → Type 0
IsOrdinary shutdown = ⊥
IsOrdinary (polled (failed e)) = is_fatal e.fault ≡ false
IsOrdinary _ = Unit {0}

module _ (fl : Floats) (law : Lawful fl) (client : Client) (lower upper : ℕ) where
  set_state-backoff :
      (d : Driver fl client) (next : ConnectionState fl.F)
      → (set_state fl client d next).backoff ≡ d.backoff
  set_state-backoff d next = (set_state-keeps fl client d next).1

  -- The backoff can go on, within the delay bounds of its jitter.
  pub record IsHealthy (b : Backoff fl) : Type 0 where
    pub steady : IsSteady fl law b
    pub band : Band fl law b lower upper
    pub has_jitter : fl.eq b.jitter (fl.of_nat 0) ≡ false

  -- The task polls, or sleeps for a delay within the bounds.
  abbrev pub IsTrying : Phase → Type 0
  IsTrying polling = Unit {0}
  IsTrying (sleeping delay) = (lower ≤ delay) × (delay ≤ upper)
  IsTrying _ = ⊥

  abbrev IsAlive : Driver fl client × Phase → Type 0
  IsAlive s = IsHealthy s.0.backoff × IsTrying s.1

  Waits-IsHealthy :
      (b : Backoff fl) (w : Waits fl law b lower upper) → IsHealthy b → IsHealthy w.after
  Waits-IsHealthy b w h =
      let (same_initial, same_limit, _, same_jitter) = w.settings_kept in
      record {
        steady = w.steady;
        band = record {
          lower_delay = simp (same_initial, same_jitter) h.band.lower_delay;
          upper_delay = simp (same_limit, same_jitter) h.band.upper_delay;
        };
        has_jitter = simp same_jitter h.has_jitter;
      }

  Waits-bounds :
      (b : Backoff fl) (w : Waits fl law b lower upper)
      → fl.eq b.jitter (fl.of_nat 0) ≡ false
      → (lower ≤ w.delay) × (w.delay ≤ upper)
  Waits-bounds b w h = elim w.bounds [ inl (plain, _) ↦ cc | inr (_, low, high) ↦ (low, high) ]

  on_error-IsAlive :
      (d : Driver fl client) (e : ConnectionError)
      → is_fatal e.fault ≡ false
      → IsHealthy d.backoff
      → IsAlive (on_error fl client d e)
  unfolding on_error retry
  on_error-IsAlive d e ordinary h =
      let w = next_delay-Waits fl law d.backoff lower upper h.steady h.band in
      let moved = record d { backoff = w.after } in
      let lost = set_state fl client moved (disconnected (root_cause e.chain)) in
      let backed =
        set_state-backoff lost (reconnecting (fl.as_secs w.delay))
        ∙ set_state-backoff moved (disconnected (root_cause e.chain)) in
      let bounds = Waits-bounds d.backoff w h.has_jitter in
      rw (ordinary, on_error)
        (rw (w.runs, retry) ((rw backed (Waits-IsHealthy d.backoff w h)), bounds))

  on_conn_ack-IsHealthy :
      (d : Driver fl client) (code : ConnectReturnCode)
      → IsHealthy d.backoff
      → IsHealthy (on_conn_ack fl client d code).backoff
  unfolding on_conn_ack publish_status
  on_conn_ack-IsHealthy d success h =
      rw (set_state-backoff (record d { backoff = reset fl d.backoff }) connected) (record {
        steady = (reset-IsSteady fl law d.backoff h.steady).0;
        band =
            unfold reset in
            record { lower_delay = h.band.lower_delay; upper_delay = h.band.upper_delay };
        has_jitter = unfold reset in h.has_jitter;
      })
  on_conn_ack-IsHealthy d _ h = h

  step-IsAlive :
      (d : Driver fl client) (phase : Phase) (i : Input)
      → IsOrdinary i
      → IsAlive (d, phase)
      → IsAlive (step fl client (d, phase) i)
  unfolding step on_poll
  step-IsAlive d polling shutdown o h = absurd o
  step-IsAlive d polling (polled (conn_ack code)) o h = (on_conn_ack-IsHealthy d code h.0, tt)
  step-IsAlive d polling (polled disconnect_sent) o h = h
  step-IsAlive d polling (polled other_event) o h = h
  step-IsAlive d polling (polled (failed e)) o h = on_error-IsAlive d e o h.0
  step-IsAlive d (sleeping delay) shutdown o h = absurd o
  step-IsAlive d (sleeping delay) slept o h = (h.0, tt)
  step-IsAlive d flushing i o h = absurd h.1
  step-IsAlive d _ _ o h = h

  -- Without a shutdown and without an unrecoverable error the task never stops and never panics: it polls, or
  -- sleeps before the next attempt, for a delay within the bounds.
  pub run-alive :
      (d : Driver fl client) (phase : Phase) (is : List Input)
      → All IsOrdinary is
      → IsHealthy d.backoff × IsTrying phase
      → let (d', phase') = run fl client (d, phase) is in IsHealthy d'.backoff × IsTrying phase'
  unfolding run
  run-alive d phase [] o h = h
  run-alive d phase (i ∷ is) o h =
      let (d', phase') = step fl client (d, phase) i in
      run-alive d' phase' is o.1 (step-IsAlive d phase i o.0 h)
