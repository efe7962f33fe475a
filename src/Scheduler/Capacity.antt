-- ===== src/Scheduler/Capacity.antt =====
-- The scheduler on the MQTT publisher (src/core/scheduler.rs, src/main.rs): a queue that the configuration's check
-- lets pass has room for a whole cycle.
use blazebee.Base.{
  ℕ, ◌+◌, ◌≤◌, ◌<◌, ◌≡◌, refl, Bool, false, List, [], ◌∷◌, length, ok, arith, All, All-append,
  Bool-cases, Option-cases, Result-cases, inl, inr, ltb,
}
use blazebee.Serializer.{Codecs}
use blazebee.Publisher.{Client, Publisher}
use blazebee.Publisher
use blazebee.Publisher.Room.{Room, is_full_error, publish-Fits}
use blazebee.Scheduler.{Publish, Collect, Entry, Failure, Line, failed, run_entry, cycle, settle}

-- `impl Publish for blazebee_mqtt_v3::Publisher`
abbrev pub mqtt : Codecs → Client → Publish
mqtt codecs client = record {
  Sink = Publisher client.Queue;
  Value = codecs.Value;
  publish = Publisher.publish codecs client;
}

-- The line is a failure for want of room.
abbrev pub overflowed : Line → Bool
overflowed (failed level name n (Failure.publish e)) = is_full_error e
overflowed _ = false

module _ (codecs : Codecs) (client : Client) (free : Room client) (c : Collect codecs.Value) where
  abbrev sink : Publish
  sink = mqtt codecs client

  settle-ok_fits :
      (e : Entry c.Collector) (n : ℕ)
      → All (λ l. overflowed l ≡ false) (settle sink c e (ok n)).lines
  settle-ok_fits e n = elim (Bool-cases (ltb 0 e.failures)) [
    | inl h ↦ rw h ((refl, (refl, tt)))
    | inr h ↦ rw h ((refl, tt))
  ]

  run_entry_fits :
      (p : Publisher client.Queue) (e : Entry c.Collector)
      → p.framing ≡ false
      → 0 < free.room p.client
      → let (p', r) = run_entry sink c p e in
        (All (λ l. overflowed l ≡ false) r.lines)
        × (free.room p.client ≤ free.room p'.client + 1)
        × (p'.framing ≡ false)
  unfolding run_entry
  run_entry_fits p e off h = elim (Option-cases (c.collect e.collector).1) [
    | inl late ↦ rw late (((refl, tt), omega arith, off))
    | inr (answer, got) ↦ elim (Result-cases answer) [
      | inr (x, bad) ↦ rw (got, bad) (((refl, tt), omega arith, off))
      | inl (sample, good) ↦
          let (fits, room, off') = publish-Fits codecs client free p sample e.meta off h in
          elim (Result-cases (Publisher.publish codecs client p sample e.meta).1) [
            | inl (n, done) ↦
                rw (got, good, done)
                  ((
                    settle-ok_fits (record e { collector = (c.collect e.collector).0 }) n,
                    room,
                    off',
                  ))
            | inr (x, full) ↦ rw (got, good, full) (((rw full at fits, tt), room, off'))
          ]
    ]
  ]

  -- A cycle without framing on a queue with a place for each entry loses no sample to a full queue.
  pub cycle-fits :
      (p : Publisher client.Queue) (es : List (Entry c.Collector))
      → p.framing ≡ false
      → length es ≤ free.room p.client
      → All (λ l. overflowed l ≡ false) (cycle sink c p es).lines
  unfolding cycle
  cycle-fits p [] off h = tt
  cycle-fits p (e ∷ es) off h =
      let (lines, room, off') = run_entry_fits p e off (omega arith) in
      All-append (λ l. overflowed l ≡ false) _ _ lines
        (cycle-fits (run_entry sink c p e).0 es off' (omega arith))
