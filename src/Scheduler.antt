-- ===== src/Scheduler.antt =====
-- src/core/scheduler.rs: the sampling loop. One wake of the loop is one step; a collector's call is
-- its new state with its result, or with nothing when COLLECT_TIMEOUT passes first.
pub mod Entries
pub mod Cycles
pub mod Run
pub mod Loop
pub mod Capacity
use blazebee.Base.{
  ℕ, zero, suc, ◌+◌, ◌-◌, ◌%◌, ◌^◌, ◌<◌, min, Bool, true, false, not, ◌||◌, Option, none, some,
  List, [], ◌∷◌, ◌++◌, length, map, ltb, ◌==◌, if◌then◌else◌, Result, ok, err, map_err,
}
use blazebee.Base.Text.{Text}
use blazebee.Error.{TransferError}
use blazebee.Config.{EndpointMetadata}
use blazebee.Connection.{ConnectionState, is_connected, is_fatal_state}
use blazebee.Collectors.Error.{CollectorError, timeout}

-- COLLECT_TIMEOUT, in seconds.
abbrev pub collect_timeout : ℕ
collect_timeout = 10

abbrev pub failure_log_every : ℕ
failure_log_every = 120

-- The trait `Publish`, with the state of what implements it.
pub record Publish : Type 1 where
  pub Sink : Type 0
  pub Value : Type 0
  pub publish : Sink → Value → EndpointMetadata → Sink × Result TransferError ℕ

-- The trait `Collector`: `none` is a call that does not finish in time.
pub record Collect (Value : Type 0) : Type 1 where
  pub Collector : Type 0
  pub collect : Collector → Collector × Option (Result CollectorError Value)

-- tokio's Interval, which the loop waits for and restarts.
pub record Ticker : Type 1 where
  pub Interval : Type 0
  pub ticked : Interval → Interval
  pub restarted : Interval → Interval

pub data Failure : Type 0 where
  collect : CollectorError → Failure
  publish : TransferError → Failure

-- tracing::Level
pub data Level : Type 0 where
  debug warn : Level

-- What the loop logs about an entry and about a cycle.
pub data Line : Type 0 where
  recovered : Text → ℕ → Line
  published : Text → ℕ → Line
  failed : Level → Text → ℕ → Failure → Line

pub data Note : Type 0 where
  lost waiting started : Note
  restored : ℕ → Note
  complete : ℕ → ℕ → ℕ → Note
  overrun : ℕ → ℕ → Note

pub record Entry (Collector : Type 0) : Type 0 where
  pub name : Text
  pub collector : Collector
  pub meta : EndpointMetadata
  pub failures : ℕ

-- `saturating_add(1)` on a u32.
abbrev pub bump : ℕ → ℕ
bump n = min (n + 1) (2 ^ 32 - 1)

unfoldable pub failure_level : ℕ → Level
failure_level n = if (n == 1) || (n % failure_log_every == 0) then warn else debug

-- Scheduler::new, for the entries.
unfoldable pub entries_of : {C : Type 0} → List (Text × C × EndpointMetadata) → List (Entry C)
entries_of [] = []
entries_of ((name, collector, meta) ∷ rest) =
    record { name = name; collector = collector; meta = meta; failures = 0 } ∷ entries_of rest

-- An entry after its turn: `run_entry`'s result, and its log.
pub record Settled (Collector : Type 0) : Type 0 where
  pub entry : Entry Collector
  pub size : Option ℕ
  pub lines : List Line

-- One loop over the entries: what is left, and `published`, `bytes` and the log.
pub record Cycle (Sink Collector : Type 0) : Type 0 where
  pub sink : Sink
  pub entries : List (Entry Collector)
  pub published : ℕ
  pub bytes : ℕ
  pub lines : List Line

module _ (p : Publish) (c : Collect p.Value) where
  open p use {Sink}
  open c use {Collector}

  abbrev pub outcome_of :
      Sink → EndpointMetadata → Option (Result CollectorError p.Value) → Sink × Result Failure ℕ
  outcome_of s meta none = (s, err (Failure.collect (timeout collect_timeout)))
  outcome_of s meta (some (err e)) = (s, err (Failure.collect e))
  outcome_of s meta (some (ok sample)) =
      let (s', answer) = p.publish s sample meta in (s', map_err Failure.publish answer)

  abbrev pub settle : Entry Collector → Result Failure ℕ → Settled Collector
  settle e (ok n) = record {
    entry = record e { failures = 0 };
    size = some n;
    lines =
        (if ltb 0 e.failures then recovered e.name e.failures ∷ [] else [])
        ++ (published e.name n ∷ []);
  }
  settle e (err failure) =
      let n = bump e.failures in
      record {
        entry = record e { failures = n };
        size = none;
        lines = failed (failure_level n) e.name n failure ∷ [];
      }

  unfoldable pub run_entry : Sink → Entry Collector → Sink × Settled Collector
  run_entry s e =
      let (collector', got) = c.collect e.collector in
      let (s', outcome) = outcome_of s e.meta got in
      (s', settle (record e { collector = collector' }) outcome)

  abbrev pub count_in : Option ℕ → ℕ → ℕ
  count_in none n = n
  count_in (some size) n = n + 1

  abbrev pub add_in : Option ℕ → ℕ → ℕ
  add_in none n = n
  add_in (some size) n = n + size

  unfoldable pub cycle : Sink → List (Entry Collector) → Cycle Sink Collector
  cycle s [] = record { sink = s; entries = []; published = 0; bytes = 0; lines = [] }
  cycle s (e ∷ es) =
      let (s', r) = run_entry s e in
      let rest = cycle s' es in
      record {
        sink = rest.sink;
        entries = r.entry ∷ rest.entries;
        published = count_in r.size rest.published;
        bytes = add_in r.size rest.bytes;
        lines = r.lines ++ rest.lines;
      }
