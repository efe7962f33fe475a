-- ===== src/Scheduler/Cycles.antt =====
-- One pass over the entries in src/core/scheduler.rs.
use blazebee.Base.{
  ℕ, ◌+◌, ◌≡◌, refl, sym, ap, ◌∙◌, Option, none, some, List, [], ◌∷◌, ◌++◌, map, length, Result, ok,
  err, Result-cases, inl, inr, arith,
}
use blazebee.Error.{TransferError}
use blazebee.Config.{EndpointMetadata}
use blazebee.Collectors.Error.{CollectorError}
use blazebee.Scheduler.{
  Publish, Collect, Entry, Settled, Cycle, Line, failed, published, recovered, cycle, run_entry,
  outcome_of, settle, count_in, add_in,
}

-- The entries that a log reports as failed, and as published with their bytes.
unfoldable pub failed_in : List Line → ℕ
failed_in [] = 0
failed_in (failed level name n failure ∷ ls) = 1 + failed_in ls
failed_in (_ ∷ ls) = failed_in ls

unfoldable pub bytes_in : List Line → ℕ
bytes_in [] = 0
bytes_in (published name n ∷ ls) = n + bytes_in ls
bytes_in (_ ∷ ls) = bytes_in ls

failed_in-append : (xs ys : List Line) → failed_in (xs ++ ys) ≡ failed_in xs + failed_in ys
unfolding failed_in
failed_in-append [] ys = omega arith
failed_in-append (failed level name n failure ∷ ls) ys = omega (arith, failed_in-append ls ys)
failed_in-append (published name n ∷ ls) ys = failed_in-append ls ys
failed_in-append (recovered name n ∷ ls) ys = failed_in-append ls ys

bytes_in-append : (xs ys : List Line) → bytes_in (xs ++ ys) ≡ bytes_in xs + bytes_in ys
unfolding bytes_in
bytes_in-append [] ys = omega arith
bytes_in-append (failed level name n failure ∷ ls) ys = bytes_in-append ls ys
bytes_in-append (published name n ∷ ls) ys = omega (arith, bytes_in-append ls ys)
bytes_in-append (recovered name n ∷ ls) ys = bytes_in-append ls ys

abbrev pub accepted_in : List (Result TransferError ℕ) → ℕ
accepted_in [] = 0
accepted_in (ok n ∷ rest) = 1 + accepted_in rest
accepted_in (err e ∷ rest) = accepted_in rest

abbrev pub sizes_in : List (Result TransferError ℕ) → ℕ
sizes_in [] = 0
sizes_in (ok n ∷ rest) = n + sizes_in rest
sizes_in (err e ∷ rest) = sizes_in rest

module _ (p : Publish) (c : Collect p.Value) where
  abbrev pub next : c.Collector → c.Collector
  next x = (c.collect x).0

  -- What one entry's turn does, whatever its outcome.
  run_entry_keeps :
      (s : p.Sink) (e : Entry c.Collector)
      → let r = (run_entry p c s e).1 in
        (r.entry.collector ≡ next e.collector) × (r.entry.name ≡ e.name) × (r.entry.meta ≡ e.meta)
  unfolding run_entry
  run_entry_keeps s e = ground arith

  -- What the collectors give that is to be published, in the order of the entries.
  abbrev pub sample_of :
      Option (Result CollectorError p.Value) → EndpointMetadata → List (p.Value × EndpointMetadata)
  sample_of (some (ok sample)) meta = (sample, meta) ∷ []
  sample_of _ meta = []

  unfoldable pub samples : List (Entry c.Collector) → List (p.Value × EndpointMetadata)
  samples [] = []
  samples (e ∷ es) = sample_of (c.collect e.collector).1 e.meta ++ samples es

  -- Publishing one after the other, with the answers.
  unfoldable pub publish_all :
      p.Sink → List (p.Value × EndpointMetadata) → p.Sink × List (Result TransferError ℕ)
  publish_all s [] = (s, [])
  publish_all s ((sample, meta) ∷ rest) =
      let done = p.publish s sample meta in
      let later = publish_all done.0 rest in (later.0, done.1 ∷ later.1)

  -- A pass over the entries: all have their turn, in order, each on the collector that it had, and each is
  -- either published or logged as failed.
  pub record IsPass (s : p.Sink) (es : List (Entry c.Collector)) (r : Cycle p.Sink c.Collector)
      : Type 0 where
    pub collected : map (λ e. e.collector) r.entries ≡ map next (map (λ e. e.collector) es)
    pub names : map (λ e. e.name) r.entries ≡ map (λ e. e.name) es
    pub metas : map (λ e. e.meta) r.entries ≡ map (λ e. e.meta) es
    pub sink_is : r.sink ≡ (publish_all s (samples es)).0
    pub accepted : r.published ≡ accepted_in (publish_all s (samples es)).1
    pub sized : r.bytes ≡ sizes_in (publish_all s (samples es)).1
    pub counted : r.published + failed_in r.lines ≡ length es
    pub summed : r.bytes ≡ bytes_in r.lines

  run_entry_counts :
      (s : p.Sink) (e : Entry c.Collector) (n : ℕ)
      → let r = (run_entry p c s e).1 in
        (count_in p c r.size n + failed_in r.lines ≡ 1 + n)
        × (add_in p c r.size n ≡ bytes_in r.lines + n)
  unfolding run_entry failed_in bytes_in
  run_entry_counts s e n = ground arith

  -- A turn, and what is published after it.
  abbrev Publishes :
      p.Sink
      → EndpointMetadata
      → Option (Result CollectorError p.Value)
      → List (p.Value × EndpointMetadata)
      → p.Sink × Settled c.Collector
      → Type 0
  Publishes s meta got rest (s', r) =
      let all = publish_all s (sample_of got meta ++ rest) in
      let later = publish_all s' rest in
      (all.0 ≡ later.0)
      × (accepted_in all.1 ≡ count_in p c r.size (accepted_in later.1))
      × (sizes_in all.1 ≡ add_in p c r.size (sizes_in later.1))

  settled-Publishes :
      (s : p.Sink) (e : Entry c.Collector) (x : c.Collector)
      (rest : List (p.Value × EndpointMetadata)) (got : Option (Result CollectorError p.Value))
      → let (s', outcome) = outcome_of p c s e.meta got in
        Publishes s e.meta got rest (s', settle p c (record e { collector = x }) outcome)
  unfolding publish_all
  settled-Publishes s e x rest none = (refl, refl, refl)
  settled-Publishes s e x rest (some (err y)) = (refl, refl, refl)
  settled-Publishes s e x rest (some (ok sample)) =
      elim (Result-cases (p.publish s sample e.meta).1) [
        | inl (n, h) ↦ rw h ((refl, omega arith, omega arith))
        | inr (y, h) ↦ rw h ((refl, refl, refl))
      ]

  run_entry-Publishes :
      (s : p.Sink) (e : Entry c.Collector) (rest : List (p.Value × EndpointMetadata))
      → Publishes s e.meta (c.collect e.collector).1 rest (run_entry p c s e)
  unfolding run_entry
  run_entry-Publishes s e rest =
      settled-Publishes s e (c.collect e.collector).0 rest (c.collect e.collector).1

  -- Whatever fails, a cycle gives every entry its turn, once, and keeps names and metadata. The publisher gets the
  -- samples of the collectors one after the other, in the order of the entries, and the cycle counts those that it
  -- accepts and adds up their sizes. Each entry is counted as published or logged as failed, and the bytes are those
  -- that are logged as published.
  pub cycle-IsPass : (s : p.Sink) (es : List (Entry c.Collector)) → IsPass s es (cycle p c s es)
  unfolding cycle failed_in bytes_in samples publish_all
  cycle-IsPass s [] = record {
    collected = refl;
    names = refl;
    metas = refl;
    sink_is = refl;
    accepted = refl;
    sized = refl;
    counted = refl;
    summed = refl;
  }
  cycle-IsPass s (e ∷ es) =
      let (x, n, m) = run_entry_keeps s e in
      let rest = cycle-IsPass (run_entry p c s e).0 es in
      let later = cycle p c (run_entry p c s e).0 es in
      let r = (run_entry p c s e).1 in
      let turn = run_entry-Publishes s e (samples es) in
      let lines = r.lines in
      record {
        collected = rw (x, rest.collected);
        names = rw (n, rest.names);
        metas = rw (m, rest.metas);
        sink_is = rest.sink_is ∙ sym turn.0;
        accepted = ap (count_in p c r.size) rest.accepted ∙ sym turn.1;
        sized = ap (add_in p c r.size) rest.sized ∙ sym turn.2;
        counted = omega (
          arith,
          (run_entry_counts s e later.published).0,
          rest.counted,
          failed_in-append lines later.lines,
        );
        summed = omega (
          arith,
          (run_entry_counts s e later.bytes).1,
          rest.summed,
          bytes_in-append lines later.lines,
        );
      }
