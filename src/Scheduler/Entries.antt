-- ===== src/Scheduler/Entries.antt =====
-- One collector's turn in src/core/scheduler.rs (`run_entry`).
use blazebee.Base.{
  ℕ, ◌+◌, ◌++◌, ◌-◌, ◌%◌, ◌^◌, ◌≡◌, ◌↔◌, ◌⊎◌, refl, min, Option, none, some, [], ◌∷◌, Result, ok,
  err, map_err, ltb, if◌then◌else◌, arith,
}
use blazebee.Error.{TransferError}
use blazebee.Collectors.Error.{CollectorError, timeout}
use blazebee.Scheduler.{
  Publish, Collect, Entry, Settled, Failure, failed, recovered, published, warn, failure_level,
  failure_log_every, run_entry, outcome_of, settle, collect_timeout,
}

-- The level is `warn` at the first failure of a row and at every 120th.
pub failure_level_iff : (n : ℕ) → (failure_level n ≡ warn) ↔ ((n ≡ 1) ⊎ (n % failure_log_every ≡ 0))
unfolding failure_level
failure_level_iff n = ground arith

module _ (p : Publish) (c : Collect p.Value) where
  -- The size is answered, and the row of failures ends, which is logged after a failure.
  pub record IsTaken (e : Entry c.Collector) (r : Settled c.Collector) (size : ℕ) : Type 0 where
    pub size_is : r.size ≡ some size
    pub reset : r.entry.failures ≡ 0
    pub logged :
        r.lines
        ≡ (if ltb 0 e.failures then recovered e.name e.failures ∷ [] else [])
          ++ (published e.name size ∷ [])

  -- Nothing is answered, and the row of failures is one longer, up to the largest u32.
  pub record IsMissed (e : Entry c.Collector) (r : Settled c.Collector) (failure : Failure)
      : Type 0 where
    pub no_size : r.size ≡ none
    pub one_more : r.entry.failures ≡ min (e.failures + 1) (2 ^ 32 - 1)
    pub logged :
        r.lines ≡ failed (failure_level r.entry.failures) e.name r.entry.failures failure ∷ []

  abbrev pub IsAnswered : Entry c.Collector → Settled c.Collector → Result TransferError ℕ → Type 0
  IsAnswered e r (ok size) = IsTaken e r size
  IsAnswered e r (err x) = IsMissed e r (Failure.publish x)

  -- By what the collector answers: only a sample in time is published.
  abbrev pub IsTurn :
      p.Sink
      → Entry c.Collector
      → Option (Result CollectorError p.Value)
      → p.Sink × Settled c.Collector
      → Type 0
  IsTurn s e none (s', r) = (s' ≡ s) × IsMissed e r (Failure.collect (timeout collect_timeout))
  IsTurn s e (some (err x)) (s', r) = (s' ≡ s) × IsMissed e r (Failure.collect x)
  IsTurn s e (some (ok sample)) (s', r) =
      let (s₁, answer) = p.publish s sample e.meta in (s' ≡ s₁) × IsAnswered e r answer

  answered :
      (e : Entry c.Collector) (x : c.Collector) (answer : Result TransferError ℕ)
      → IsAnswered e
          (settle p c (record e { collector = x }) (map_err Failure.publish answer))
          answer
  answered e x (ok size) = record { size_is = refl; reset = refl; logged = refl }
  answered e x (err y) = record { no_size = refl; one_more = refl; logged = refl }

  turn :
      (s : p.Sink) (e : Entry c.Collector) (x : c.Collector)
      (got : Option (Result CollectorError p.Value))
      → let (s', outcome) = outcome_of p c s e.meta got in
        IsTurn s e got (s', settle p c (record e { collector = x }) outcome)
  turn s e x none = (refl, record { no_size = refl; one_more = refl; logged = refl })
  turn s e x (some (err y)) = (refl, record { no_size = refl; one_more = refl; logged = refl })
  turn s e x (some (ok sample)) = (refl, answered e x (p.publish s sample e.meta).1)

  -- A turn calls the collector, and publishes its sample exactly when it comes in time and without an error. If the
  -- publisher accepts it, its size is answered and the row of failures ends; otherwise nothing is answered, the row
  -- grows by one, up to the largest u32, and the cause is logged: the time limit, the collector's error or the
  -- publisher's.
  pub run_entry_lem :
      (s : p.Sink) (e : Entry c.Collector)
      → IsTurn s e (c.collect e.collector).1 (run_entry p c s e)
        × ((run_entry p c s e).1.entry.collector ≡ (c.collect e.collector).0)
  unfolding run_entry
  run_entry_lem s e = (turn s e (c.collect e.collector).0 (c.collect e.collector).1, ground arith)
