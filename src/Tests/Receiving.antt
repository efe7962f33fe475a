-- ===== src/Tests/Receiving.antt =====
-- A consumer of a sample that was published in two frames (crates/mqtt/v3/src/publisher.rs, serializer.rs, framer.rs).
use blazebee.Base.{
  ℕ, zero, suc, ◌≡◌, ◌==◌, refl, Option, none, some, [], ◌∷◌, Result, ok, take, drop, get_elem?,
  if◌then◌else◌, arith,
}
use blazebee.Config.{SerializationFormat, json, message_pack, cbor}
use blazebee.Error.{IoError, from_client_error}
use blazebee.Base.Text.{utf8_len, trim_start_matches, trim_end_matches}
use blazebee.Framer.{Bytes, frames, chunks, enumerate, frame, encode}
use blazebee.Framer.Reassembly.{Arrives, reassemble, reassemble-frames}
use blazebee.Serializer.{Codecs, serialize, compress}
use blazebee.Serializer
use blazebee.Serializer.Reading.{Reader, Inverts, written}
use blazebee.Publisher.{
  Publisher, publish, prepare, dispatch, publish_frames, enqueue, enqueue_all, qos_of, join_topic,
  checked_sub, publish_overhead,
}
use blazebee.Publisher.Received.{consume, payloads_of, publish_received}
use blazebee.Tests.Fixtures.{Bounded, client, law, framing_publisher, long_sample, endpoint}

abbrev packed : ℕ → Bytes → Result IoError Bytes
packed m b = ok (m ∷ b)

-- Each format and each compression puts its mark first.
abbrev codecs : Codecs
codecs = record {
  Value = Bytes;
  write_json = λ v. ok (0x7B ∷ v);
  write_msgpack = λ v. ok (0x82 ∷ v);
  write_cbor = λ v. ok (0xA2 ∷ v);
  compress_gzip = packed 0x1F;
  compress_zstd = λ level b. packed 0x28 b;
}

abbrev after : Bytes → Option Bytes
after [] = none
after (b ∷ bs) = some bs

abbrev after_mark : ℕ → Bytes → Option Bytes
after_mark m [] = none
after_mark m (b ∷ bs) = if b == m then some bs else none

abbrev reader : Reader Bytes
reader = record {
  read = λ f b. after b;
  unpack_gzip = after_mark 0x1F;
  unpack_zstd = after_mark 0x28;
}

reads : (f : SerializationFormat) (v b : Bytes) → written codecs f v ≡ ok b → after b ≡ some v
reads json v b h = let same : 0x7B ∷ v ≡ b = cc in rw (← same) refl
reads message_pack v b h = let same : 0x82 ∷ v ≡ b = cc in rw (← same) refl
reads cbor v b h = let same : 0xA2 ∷ v ≡ b = cc in rw (← same) refl

unmarked :
    (f : SerializationFormat) (v b : Bytes)
    → written codecs f v ≡ ok b
    → (after_mark 0x1F b ≡ none) × (after_mark 0x28 b ≡ none)
unmarked json v b h = let same : 0x7B ∷ v ≡ b = cc in rw (← same) ((refl, refl))
unmarked message_pack v b h = let same : 0x82 ∷ v ≡ b = cc in rw (← same) ((refl, refl))
unmarked cbor v b h = let same : 0xA2 ∷ v ≡ b = cc in rw (← same) ((refl, refl))

marked : (m : ℕ) (b z : Bytes) → packed m b ≡ ok z → after_mark m z ≡ some b
marked m b z h = let same : m ∷ b ≡ z = cc in rw (← same) (ground arith)

abbrev inverts : Inverts codecs reader
inverts = record {
  reads = reads;
  gzips = λ b z h. marked 0x1F b z h;
  zstds = λ b z h. marked 0x28 b z h;
  not_packed = unmarked;
}

abbrev payload : Bytes
payload = 0x7B ∷ long_sample

abbrev first : Bytes
unfolding frame encode
first = frame json 1 1 2 0 (take 26 payload)

abbrev second : Bytes
unfolding frame encode
second = frame json 1 1 2 1 (drop 26 payload)

-- The second frame overtakes the first, and comes once more.
overtakes : (a b : Bytes) → Arrives (a ∷ b ∷ []) (b ∷ a ∷ b ∷ [])
overtakes a b = record { some_come = omega arith; of_these = these; all_come = all }
  where
    these :
        (k : ℕ) (f : Bytes)
        → get_elem? (b ∷ a ∷ b ∷ []) k ≡ some f
        → (i : ℕ) × (get_elem? (a ∷ b ∷ []) i ≡ some f)
    these zero f h = (1, h)
    these (suc zero) f h = (0, h)
    these (suc (suc zero)) f h = (1, h)
    these (suc (suc (suc k))) f h = cc

    all :
        (i : ℕ) (f : Bytes)
        → get_elem? (a ∷ b ∷ []) i ≡ some f
        → (k : ℕ) × (get_elem? (b ∷ a ∷ b ∷ []) k ≡ some f)
    all zero f h = (1, h)
    all (suc zero) f h = (0, h)
    all (suc (suc i)) f h = cc

cut : frames json 1 1 payload 47 ≡ ok (first ∷ second ∷ [])
unfolding frames enumerate chunks first second
cut = refl

reassemble-frames_example : reassemble (second ∷ first ∷ second ∷ []) ≡ some payload
reassemble-frames_example =
    reassemble-frames json 1 1 payload 47 (first ∷ second ∷ []) (second ∷ first ∷ second ∷ [])
      (omega arith) (omega arith) cut (overtakes first second)

abbrev bee : Publisher Bounded
bee = framing_publisher 8

published : (publish codecs client bee long_sample endpoint).1 ≡ ok 51
unfolding publish prepare dispatch publish_frames enqueue enqueue_all qos_of join_topic checked_sub
    publish_overhead Serializer.encode serialize compress utf8_len trim_start_matches
    trim_end_matches from_client_error frames chunks enumerate frame
published = refl

queued :
    payloads_of codecs client law reader inverts bee
      (publish codecs client bee long_sample endpoint).0
    ≡ first ∷ second ∷ []
unfolding publish prepare dispatch publish_frames enqueue enqueue_all qos_of join_topic checked_sub
    publish_overhead Serializer.encode serialize compress utf8_len trim_start_matches
    trim_end_matches from_client_error frames chunks enumerate frame first second
queued = refl

publish_received_example : consume reader bee (second ∷ first ∷ second ∷ []) ≡ some long_sample
publish_received_example =
    publish_received codecs client law reader inverts bee long_sample endpoint 51
      (second ∷ first ∷ second ∷ []) (omega arith) published (rw queued (overtakes first second))
