-- ===== src/Tests/Sampling.antt =====
-- The scheduler (src/core/scheduler.rs) with two collectors, one of which always fails, on the MQTT publisher.
use blazebee.Base.{ℕ, zero, suc, ◌+◌, ◌≡◌, some, List, [], ◌∷◌, Result, ok, err}
use blazebee.Base.Text.{Text, codes}
use blazebee.Config.{EndpointMetadata}
use blazebee.Connection.{connecting, connected, fatal_exit}
use blazebee.Collectors.Error.{CollectorError, unsupported}
use blazebee.Scheduler.{Collect, Ticker, Entry, run_entry, cycle}
use blazebee.Scheduler.Run.{Wake, tick, changed, gone, Scheduling, new, run}
use blazebee.Scheduler.Entries.{IsTurn, run_entry_lem}
use blazebee.Scheduler.Cycles.{IsPass, cycle-IsPass}
use blazebee.Scheduler.Loop.{run-act, Counts}
use blazebee.Scheduler.Capacity.{mqtt}
use blazebee.Tests.Fixtures.{client, codecs, publisher, endpoint, sample}

-- A counter of calls that fails when it starts from zero.
abbrev read : ℕ → Result CollectorError (List ℕ)
read zero = err (unsupported (codes "always"))
read (suc n) = ok sample

abbrev bees : Collect (List ℕ)
bees = record { Collector = ℕ × ℕ; collect = λ c. ((c.0, c.1 + 1), some (read c.0)) }

abbrev clock : Ticker
clock = record { Interval = ℕ; ticked = λ n. n + 1; restarted = λ n. 0 }

abbrev entry : ℕ → Entry (ℕ × ℕ)
entry n = record { name = codes "bee"; collector = (n, 0); meta = endpoint; failures = 0 }

abbrev entries : List (Text × (ℕ × ℕ) × EndpointMetadata)
entries = (codes "good", (1, 0), endpoint) ∷ (codes "bad", (0, 0), endpoint) ∷ []

abbrev start : Scheduling (mqtt codecs client) bees clock 5
start = new (mqtt codecs client) bees clock 5 0 entries publisher

run_entry_lem_example :
    let taken = run_entry (mqtt codecs client) bees publisher (entry 1) in
    IsTurn (mqtt codecs client) bees publisher (entry 1) (some (ok sample)) taken
    × (taken.1.entry.collector ≡ (1, 1))
run_entry_lem_example = run_entry_lem (mqtt codecs client) bees publisher (entry 1)

cycle-IsPass_example :
    IsPass
      (mqtt codecs client)
      bees
      publisher
      (entry 1 ∷ entry 0 ∷ [])
      (cycle (mqtt codecs client) bees publisher (entry 1 ∷ entry 0 ∷ []))
cycle-IsPass_example = cycle-IsPass (mqtt codecs client) bees publisher (entry 1 ∷ entry 0 ∷ [])

-- Waiting, then connected for two ticks, then a fatal state.
abbrev wakes : List (Wake ℕ)
wakes =
    tick connecting 0
    ∷ changed connected 1
    ∷ gone
    ∷ tick connected 1
    ∷ tick (fatal_exit (codes "x")) 0
    ∷ tick connected 1
    ∷ []

run-act_example :
    Counts
      (mqtt codecs client)
      bees
      clock
      5
      start
      wakes
      (run (mqtt codecs client) bees clock 5 start wakes)
run-act_example = run-act (mqtt codecs client) bees clock 5 start wakes
