-- ===== src/Publisher/Ready.antt =====
-- What a publish of crates/mqtt/v3/src/publisher.rs makes ready, and what it then delivers or leaves behind.
use blazebee.Base.{
  ℕ, zero, suc, ◌^◌, ◌≤◌, ◌<◌, ◌≡◌, refl, ap, inl, inr, List, [], ◌∷◌, ◌++◌, map, some, Bool, true,
  false, length, take, drop, get_elem?, ok, Result-cases, arith,
}
use mathlib.Core.List.{flatten}
use blazebee.Error.{TransferError}
use blazebee.Config.{EndpointMetadata, SerializationFormat}
use blazebee.Framer.{Bytes, frames, decode, frame_header_len}
use blazebee.Framer.Split.{frames_carry, frames_numbered, header_at}
use blazebee.Serializer.{Codecs, encode}
use blazebee.Publisher.{
  Client, Publisher, Message, request_of, prepare, update_hint, qos_of, join_topic, QoS,
}
use blazebee.Publisher.Queueing.{IsRefusal}

-- The parts that are queued for a payload: itself, or frames that spell it in order, each under a
-- header with its place.
pub data Carries (framing : Bool) (format : SerializationFormat) (qos stream_id : ℕ)
    (payload : Bytes) (parts : List Bytes) : Type 0 where
  plain :
      framing ≡ false → parts ≡ payload ∷ [] → Carries framing format qos stream_id payload parts
  split :
      framing ≡ true
      → flatten (map (drop frame_header_len) parts) ≡ payload
      → ((i : ℕ) (f : Bytes)
          → get_elem? parts i ≡ some f
          → decode f ≡ some (header_at format qos stream_id (length parts) i))
      → Carries framing format qos stream_id payload parts

pub qos_of_bound : (n : ℕ) {q : QoS} → qos_of n ≡ ok q → n ≤ 2
unfolding qos_of
qos_of_bound zero h = omega arith
qos_of_bound (suc zero) h = omega arith
qos_of_bound (suc (suc zero)) h = omega arith
qos_of_bound (suc (suc (suc n))) h = cc

module _ (codecs : Codecs) (client : Client) where
  -- A message is ready only with an accepted QoS, the joined topic and the encoded value.
  pub record Ready (p : Publisher client.Queue) (value : codecs.Value) (meta : EndpointMetadata)
      (m : Message) : Type 0 where
    pub accepted : qos_of meta.qos ≡ ok m.qos
    pub joined : m.topic ≡ join_topic p.base_topic meta.topic
    pub encoded : encode codecs p.serializer value ≡ ok m.payload
    pub retained : m.retain ≡ meta.retain

  pub prepare-Ready :
      (p : Publisher client.Queue) (value : codecs.Value) (meta : EndpointMetadata) (m : Message)
      → prepare codecs client p value meta ≡ ok m
      → Ready p value meta m
  unfolding prepare
  prepare-Ready p value meta m h = elim (Result-cases (qos_of meta.qos)) [
    | inr (e, bad) ↦ cc (rw (bad, prepare) at h)
    | inl (q, good) ↦ elim (Result-cases (encode codecs p.serializer value)) [
      | inr (e, bad) ↦ ground (arith, h, good, bad)
      | inl (b, enc) ↦ ground (arith, h, good, enc)
    ]
  ]

  pub record Delivered (p p' : Publisher client.Queue) (value : codecs.Value)
      (meta : EndpointMetadata) (n : ℕ) : Type 0 where
    pub message : Message
    pub ready : Ready p value meta message
    pub counts : n ≡ length message.payload
    pub parts : List Bytes
    pub sends : client.sent p'.client ≡ client.sent p.client ++ map (request_of message) parts
    pub carries :
        Carries p.framing p.serializer.format meta.qos p.next_stream_id message.payload parts

  pub record Broken (p p' : Publisher client.Queue) (value : codecs.Value) (meta : EndpointMetadata)
      (e : TransferError) : Type 0 where
    pub message : Message
    pub ready : Ready p value meta message
    pub framing_on : p.framing ≡ true
    pub refusal : IsRefusal e
    pub parts : List Bytes
    pub count : ℕ
    pub count_short : count < length parts
    pub sends :
        client.sent p'.client ≡ client.sent p.client ++ map (request_of message) (take count parts)
    pub carries :
        Carries p.framing p.serializer.format meta.qos p.next_stream_id message.payload parts

  pub take_all : (xs : List Bytes) (n : ℕ) → n ≡ length xs → take n xs ≡ xs
  take_all [] zero h = refl
  take_all [] (suc n) h = refl
  take_all (x ∷ xs) zero h = absurd (omega arith)
  take_all (x ∷ xs) (suc n) h = ap (◌∷◌ x) (take_all xs n (omega arith))

  pub frames-Carries :
      (p : Publisher client.Queue) (payload : Bytes) (qos limit : ℕ) (fs : List Bytes)
      → p.framing ≡ true
      → qos ≤ 2
      → p.next_stream_id < 2 ^ 64
      → frames p.serializer.format qos p.next_stream_id payload limit ≡ ok fs
      → Carries p.framing p.serializer.format qos p.next_stream_id payload fs
  frames-Carries p payload qos limit fs on hq hs h =
      split on (frames_carry p.serializer.format qos p.next_stream_id payload limit fs h).0 (λ i f.
        frames_numbered p.serializer.format qos p.next_stream_id payload limit fs i f (omega arith)
          hs h)

-- The size hint plays no part in what is delivered.
module _ (codecs : Codecs) (client : Client) (p p' : Publisher client.Queue) (value : codecs.Value)
    (meta : EndpointMetadata) (payload : Bytes) where
  abbrev hinted : Publisher client.Queue
  hinted = update_hint codecs client p payload

  Ready-hint :
      {m : Message} → Ready codecs client hinted value meta m → Ready codecs client p value meta m
  Ready-hint r = record {
    accepted = r.accepted;
    joined = r.joined;
    encoded = r.encoded;
    retained = r.retained;
  }

  pub hint-Ready :
      {m : Message} → Ready codecs client p value meta m → Ready codecs client hinted value meta m
  hint-Ready r = record {
    accepted = r.accepted;
    joined = r.joined;
    encoded = r.encoded;
    retained = r.retained;
  }

  pub Delivered-hint :
      {n : ℕ}
      → Delivered codecs client hinted p' value meta n
      → Delivered codecs client p p' value meta n
  Delivered-hint d = record {
    message = d.message;
    ready = Ready-hint d.ready;
    counts = d.counts;
    parts = d.parts;
    sends = d.sends;
    carries = d.carries;
  }

  pub Broken-hint :
      {e : TransferError}
      → Broken codecs client hinted p' value meta e
      → Broken codecs client p p' value meta e
  Broken-hint b = record {
    message = b.message;
    ready = Ready-hint b.ready;
    framing_on = b.framing_on;
    refusal = b.refusal;
    parts = b.parts;
    count = b.count;
    count_short = b.count_short;
    sends = b.sends;
    carries = b.carries;
  }
