-- ===== src/Connection/Driver/States.antt =====
-- What the connection's state says of the driver task (crates/mqtt/v3/src/connection.rs).
use blazebee.Base.{
  ℕ, ◌≡◌, inl, inr, refl, ap, Bool, true, false, Bool-cases, Option, none, some, List, [], ◌∷◌, ok,
  err, arith,
}
use blazebee.Base.Text.{Text, codes, text_eq→eq}
use blazebee.Error.{TransferError, ConnectionError, ConnectReturnCode, success}
use blazebee.Floats.{Floats}
use blazebee.Backoff.{Backoff, next_delay, reset}
use blazebee.Publisher.{Client}
use blazebee.Connection.{
  ConnectionState, connecting, connected, disconnected, reconnecting, fatal_exit, is_connected,
  is_fatal_state, state_eq, is_fatal, root_cause,
}
use blazebee.Connection.Driver.{
  Driver, Phase, polling, sleeping, flushing, done, panicked, Input, shutdown, polled, slept,
  deadline, conn_ack, disconnect_sent, other_event, failed, set_state, on_conn_ack, retry, on_error,
  on_poll, finish, begin_disconnect, on_flush, step, run, start, publish_status,
}

-- Equal states, where no `f64` is compared.
abbrev pub HasNoSeconds : {F : Type 0} → ConnectionState F → Type 0
HasNoSeconds (reconnecting secs) = ⊥
HasNoSeconds _ = Unit {0}

state_eq→eq :
    {F : Type 0} (eq : F → F → Bool) (s t : ConnectionState F)
    → HasNoSeconds t
    → state_eq eq s t ≡ true
    → s ≡ t
unfolding state_eq
state_eq→eq eq connecting connecting h e = refl
state_eq→eq eq connected connected h e = refl
state_eq→eq eq (disconnected a) (disconnected b) h e = ap disconnected (text_eq→eq a b e)
state_eq→eq eq (fatal_exit a) (fatal_exit b) h e = ap fatal_exit (text_eq→eq a b e)
state_eq→eq eq s (reconnecting b) h e = absurd h
state_eq→eq eq _ _ h e = cc

module _ (fl : Floats) (client : Client) where
  pub set_state-state :
      (d : Driver fl client) (next : ConnectionState fl.F)
      → HasNoSeconds next
      → (set_state fl client d next).state ≡ next
  unfolding set_state
  set_state-state d next h = elim (Bool-cases (state_eq fl.eq d.state next)) [
    | inl same ↦ rw (same, set_state) (state_eq→eq fl.eq d.state next h same)
    | inr differs ↦ rw (differs, set_state)
  ]

  -- Only the state and its history change.
  pub set_state-keeps :
      (d : Driver fl client) (next : ConnectionState fl.F)
      → let d' = set_state fl client d next in
        (d'.queue ≡ d.queue) × (d'.backoff ≡ d.backoff) × (d'.status_topic ≡ d.status_topic)
  unfolding set_state
  set_state-keeps d next = ground arith

  set_state-reconnecting :
      (d : Driver fl client) (reason : Text) (secs : fl.F)
      → d.state ≡ disconnected reason
      → (set_state fl client d (reconnecting secs)).state ≡ reconnecting secs
  unfolding set_state state_eq
  set_state-reconnecting d reason secs e = ground (arith, e)

  -- What the announced state is in each phase: connected while the shutdown is flushed, the delay while the
  -- task waits for the next attempt, fatal after a fatal error only.
  abbrev pub Fits : ConnectionState fl.F → Phase → Type 0
  Fits s polling = is_fatal_state s ≡ false
  Fits s (sleeping delay) = s ≡ reconnecting (fl.as_secs delay)
  Fits s flushing = s ≡ connected
  Fits s (done (ok end)) = is_fatal_state s ≡ false
  Fits s (done (err e)) =
      (cause : ConnectionError) × (e ≡ TransferError.connection cause)
      × (is_fatal cause.fault ≡ true)
      × (s ≡ fatal_exit (root_cause cause.chain))
  Fits s panicked = is_fatal_state s ≡ false

  finish-Fits : (d : Driver fl client) → let (d', phase) = finish fl client d in Fits d'.state phase
  unfolding finish is_fatal_state
  finish-Fits d = rw (set_state-state d (disconnected (codes "shutdown")) tt)

  is_connected-eq : (s : ConnectionState fl.F) → is_connected s ≡ true → s ≡ connected
  unfolding is_connected
  is_connected-eq connected h = refl
  is_connected-eq _ h = cc

  begin_disconnect-Fits :
      (d : Driver fl client) → let (d', phase) = begin_disconnect fl client d in Fits d'.state phase
  unfolding begin_disconnect publish_status
  begin_disconnect-Fits d = elim (Bool-cases (is_connected d.state)) [
    | inl on ↦ rw (on, begin_disconnect) (is_connected-eq d.state on)
    | inr off ↦ rw (off, begin_disconnect) (finish-Fits d)
  ]

  retry-Fits :
      (d : Driver fl client) (reason : Text) (o : Option (Backoff fl × ℕ))
      → is_fatal_state d.state ≡ false
      → let (d', phase) = retry fl client d reason o in Fits d'.state phase
  unfolding retry
  retry-Fits d reason none h = h
  retry-Fits d reason (some (backoff, delay)) h =
      set_state-reconnecting _ reason (fl.as_secs delay)
        (set_state-state (record d { backoff = backoff }) (disconnected reason) tt)

  on_error-Fits :
      (d : Driver fl client) (e : ConnectionError)
      → is_fatal_state d.state ≡ false
      → let (d', phase) = on_error fl client d e in Fits d'.state phase
  unfolding on_error
  on_error-Fits d e h = elim (Bool-cases (is_fatal e.fault)) [
    | inl fatal ↦
        rw (fatal, on_error)
          (e, refl, fatal, set_state-state d (fatal_exit (root_cause e.chain)) tt)
    | inr retried ↦
        rw (retried, on_error) (retry-Fits d (root_cause e.chain) (next_delay fl d.backoff) h)
  ]

  on_conn_ack-Fits :
      (d : Driver fl client) (code : ConnectReturnCode)
      → is_fatal_state d.state ≡ false
      → is_fatal_state (on_conn_ack fl client d code).state ≡ false
  unfolding on_conn_ack publish_status is_fatal_state
  on_conn_ack-Fits d success h =
      rw (set_state-state (record d { backoff = reset fl d.backoff }) connected tt)
  on_conn_ack-Fits d _ h = h

  step-Fits :
      (d : Driver fl client) (phase : Phase) (i : Input)
      → Fits d.state phase
      → let (d', phase') = step fl client (d, phase) i in Fits d'.state phase'
  unfolding step on_poll on_flush
  step-Fits d polling shutdown h = begin_disconnect-Fits d
  step-Fits d polling (polled (conn_ack code)) h = on_conn_ack-Fits d code h
  step-Fits d polling (polled disconnect_sent) h = h
  step-Fits d polling (polled other_event) h = h
  step-Fits d polling (polled (failed e)) h = on_error-Fits d e h
  step-Fits d (sleeping delay) shutdown h = rw h (unfold is_fatal_state in refl)
  step-Fits d (sleeping delay) slept h = rw h (unfold is_fatal_state in refl)
  step-Fits d flushing (polled disconnect_sent) h = finish-Fits d
  step-Fits d flushing (polled (failed e)) h = finish-Fits d
  step-Fits d flushing (polled (conn_ack code)) h = h
  step-Fits d flushing (polled other_event) h = h
  step-Fits d flushing deadline h = finish-Fits d
  step-Fits d _ _ h = h

  run-Fits :
      (d : Driver fl client) (phase : Phase) (is : List Input)
      → Fits d.state phase
      → let (d', phase') = run fl client (d, phase) is in Fits d'.state phase'
  unfolding run
  run-Fits d phase [] h = h
  run-Fits d phase (i ∷ is) h =
      let (d', phase') = step fl client (d, phase) i in
      run-Fits d' phase' is (step-Fits d phase i h)

  -- Whatever the environment does, the announced state fits the phase of the task: the task ends with an error
  -- exactly when it announced a fatal state, which an unrecoverable error has caused.
  pub run-start-Fits :
      (queue : client.Queue) (backoff : Backoff fl) (topic : Text) (is : List Input)
      → let (d, phase) = run fl client (start fl client queue backoff topic) is in
        Fits d.state phase
  unfolding start is_fatal_state
  run-start-Fits queue backoff topic is = run-Fits _ polling is refl
