-- ===== src/Tests/Driving.antt =====
-- The driver task (crates/mqtt/v3/src/connection.rs) and its backoff, on fixed-point numbers.
use blazebee.Base.{ℕ, ◌*◌, ◌≤◌, ◌≡◌, refl, List, [], ◌∷◌, ◌++◌, true, ok, arith, All}
use blazebee.Base.Text.{codes}
use blazebee.Error.{ConnectionError, Fault, root, success}
use blazebee.Backoff.{Backoff, second}
use blazebee.Backoff.Delays.{IsExact, IsSteady, Band, Waits, next_delay-Waits}
use blazebee.Publisher.{Request, at_least_once}
use blazebee.Connection.{connected, disconnected, is_fatal}
use blazebee.Connection.Driver.{
  Driver, polling, flushing, done, Input, shutdown, polled, slept, deadline, failed, conn_ack, run,
  start, other_event, disconnect_sent,
}
use blazebee.Connection.Driver.States.{Fits, run-start-Fits}
use blazebee.Connection.Driver.Retries.{IsOrdinary, IsHealthy, IsTrying, run-alive}
use blazebee.Connection.Driver.Closing.{shutdown_ends, shutdown_offline}
use blazebee.Tests.Fixtures.{client, law, queue}
use blazebee.Tests.FixedPoint.{fixed, fixed_law}

second-IsExact : (n : ℕ) → n ≤ 100 → IsExact fixed fixed_law (n * second)
second-IsExact n h = (omega (arith, h), refl)

-- One second doubling to a minute, with a jitter of one fifth.
abbrev backoff : Backoff fixed
backoff = record {
  initial = second;
  limit = 60 * second;
  factor = 2 * second;
  jitter = 200_000_000;
  next = second;
  rng = 1;
}

steady : IsSteady fixed fixed_law backoff
steady = record {
  initial_exact = second-IsExact 1 (omega arith);
  limit_exact = second-IsExact 60 (omega arith);
  low = omega arith;
  high = omega arith;
  factor_finite = refl;
  factor_grows = refl;
  jitter_low = refl;
  jitter_high = refl;
  rng_state = omega arith;
}

band : Band fixed fixed_law backoff 800_000_000 72_000_000_000
band = record { lower_delay = refl; upper_delay = refl }

next_delay-Waits_example : Waits fixed fixed_law backoff 800_000_000 72_000_000_000
next_delay-Waits_example =
    next_delay-Waits fixed fixed_law backoff 800_000_000 72_000_000_000 steady band

abbrev lost : ConnectionError
lost = record { fault = Fault.other_fault; chain = root (codes "reset by peer") }

abbrev driver : Driver fixed client
driver = (start fixed client (queue 4) backoff (codes "hive/status")).0

abbrev story : List Input
story = polled (conn_ack success) ∷ polled (failed lost) ∷ slept ∷ []

run-start-Fits_example :
    let (d, phase) =
      run fixed client (start fixed client (queue 4) backoff (codes "hive/status")) story in
    Fits fixed client d.state phase
run-start-Fits_example = run-start-Fits fixed client (queue 4) backoff (codes "hive/status") story

ordinary : All IsOrdinary story
unfolding is_fatal
ordinary = (tt, (refl, (tt, tt)))

abbrev resting : Driver fixed client
resting = record {
  queue = queue 4;
  state = connected;
  changes = [];
  backoff = backoff;
  status_topic = codes "hive/status";
}

run-alive_example :
    let (d', phase') = run fixed client (resting, polling) story in
    IsHealthy fixed fixed_law client 800_000_000 72_000_000_000 d'.backoff
    × IsTrying fixed fixed_law client 800_000_000 72_000_000_000 phase'
run-alive_example =
    run-alive fixed fixed_law client 800_000_000 72_000_000_000 resting polling story ordinary
      (record { steady = steady; band = band; has_jitter = refl }, tt)

abbrev between : List Input
between = polled other_event ∷ shutdown ∷ []

shutdown_ends_example :
    let (d', phase) =
      run fixed client
        (resting, polling)
        (shutdown ∷ between ++ (polled disconnect_sent ∷ deadline ∷ [])) in
    (phase ≡ done (ok tt)) × (d'.state ≡ disconnected (codes "shutdown"))
shutdown_ends_example =
    shutdown_ends fixed client resting polling between (polled disconnect_sent) (deadline ∷ []) tt
      (tt, (tt, tt)) tt

abbrev offline : Request
offline = record {
  topic = codes "hive/status";
  qos = at_least_once;
  retain = true;
  payload = codes "offline";
}

shutdown_offline_example :
    let ended = (run fixed client (resting, polling) (shutdown ∷ between ++ (deadline ∷ []))).0 in
    ((run fixed client (resting, polling) (shutdown ∷ between)).1 ≡ flushing)
    × (ended.queue ≡ (client.try_disconnect (client.try_publish (queue 4) offline).0).0)
    × (client.sent ended.queue ≡ client.sent (queue 4) ++ (offline ∷ []))
shutdown_offline_example =
    shutdown_offline fixed client law resting between deadline [] refl (tt, (tt, tt)) tt
