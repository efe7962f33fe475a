-- ===== src/Publisher/Packets.antt =====
-- Packet sizes: what crates/mqtt/v3/src/publisher.rs queues, measured as MQTT 3.1.1 encodes it.
use blazebee.Base.{
  ℕ, zero, suc, ◌+◌, ◌≤◌, ◌≡◌, refl, sym, ◌∙◌, inl, inr, List, [], ◌∷◌, ◌++◌, map, append-nil,
  length, take, Result, Result-cases, arith, All, ltb, if◌then◌else◌,
}
use blazebee.Base.Text.{utf8_len}
use blazebee.Error.{TransferError}
use blazebee.Config.{EndpointMetadata, max_packet_size_limit}
use blazebee.Framer.{Bytes}
use blazebee.Framer.Split.{frames_carry}
use blazebee.Serializer.{Codecs}
use blazebee.Publisher.{
  Client, Behaves, Publisher, Request, Message, QoS, at_most_once, at_least_once, exactly_once,
  request_of, publish, prepare, publish_overhead, update_hint, join_topic,
}
use blazebee.Publisher.Ready.{prepare-Ready}
use blazebee.Publisher.Outcome.{Outcome, refused, whole, framed, dispatch-Outcome}

-- The packet identifier, which QoS 1 and 2 carry.
abbrev identifier_len : QoS → ℕ
identifier_len at_most_once = 0
identifier_len at_least_once = 2
identifier_len exactly_once = 2

-- MQTT 3.1.1, section 3.3: topic with its length, packet identifier, payload.
abbrev pub remaining_len : Request → ℕ
remaining_len r = 2 + utf8_len r.topic + identifier_len r.qos + length r.payload

-- Section 2.2.3: seven bits a byte.
abbrev pub length_bytes : ℕ → ℕ
length_bytes n =
    if ltb n 128 then 1 else if ltb n 16_384 then 2 else if ltb n 2_097_152 then 3 else 4

abbrev pub packet_len : Request → ℕ
packet_len r = 1 + length_bytes (remaining_len r) + remaining_len r

-- Section 1.5.3: the length of a text has two bytes.
abbrev pub max_topic_len : ℕ
max_topic_len = 65535

-- A packet within the limit that the configuration sets, and encodable at all.
pub record IsPacket (limit : ℕ) (r : Request) : Type 0 where
  pub within : packet_len r ≤ limit
  pub encodable : remaining_len r ≤ max_packet_size_limit
  pub topic_fits : utf8_len r.topic ≤ max_topic_len

request-IsPacket :
    (limit : ℕ) (m : Message) (bytes : Bytes)
    → limit ≤ max_packet_size_limit
    → utf8_len m.topic ≤ max_topic_len
    → publish_overhead m.topic m.qos + length bytes ≤ limit
    → IsPacket limit (request_of m bytes)
unfolding publish_overhead
request-IsPacket limit m bytes small short fits = ground arith

requests-IsPacket :
    (limit n : ℕ) (m : Message) (fs : List Bytes) (count : ℕ)
    → limit ≤ max_packet_size_limit
    → utf8_len m.topic ≤ max_topic_len
    → publish_overhead m.topic m.qos + n ≡ limit
    → All (λ f. length f ≤ n) fs
    → All (IsPacket limit) (map (request_of m) (take count fs))
requests-IsPacket limit n m fs zero small short fits h = tt
requests-IsPacket limit n m [] (suc count) small short fits h = tt
requests-IsPacket limit n m (f ∷ fs) (suc count) small short fits h = (
  request-IsPacket limit m f small short (omega arith),
  requests-IsPacket limit n m fs count small short fits h.1,
)

-- What was queued between two states of the client's queue.
pub record Added (client : Client) (q q' : client.Queue) (P : Request → Type 0) : Type 0 where
  pub added : List Request
  pub sends : client.sent q' ≡ client.sent q ++ added
  pub all_good : All P added

nothing_added :
    (client : Client) (q q' : client.Queue) (P : Request → Type 0)
    → client.sent q' ≡ client.sent q
    → Added client q q' P
nothing_added client q q' P same = record {
  added = [];
  sends = same ∙ sym (append-nil (client.sent q));
  all_good = tt;
}

module _ (codecs : Codecs) (client : Client) (law : Behaves client) where
  Outcome-Added :
      (p p' : Publisher client.Queue) (m : Message) (qos : ℕ) (answer : Result TransferError ℕ)
      → p.max_packet_size ≤ max_packet_size_limit
      → utf8_len m.topic ≤ max_topic_len
      → Outcome codecs client law p p' m qos answer
      → Added client p.client p'.client (IsPacket p.max_packet_size)
  Outcome-Added p p' m qos answer small short (refused e _ same) =
      nothing_added client p.client p'.client _ same
  Outcome-Added p p' m qos answer small short (whole off _ fits sends) = record {
    added = request_of m m.payload ∷ [];
    sends = sends;
    all_good = (request-IsPacket _ m m.payload small short fits, tt);
  }
  Outcome-Added p p' m qos answer small short (framed limit fs done on fits split loop _) = record {
    added = map (request_of m) (take loop.count fs);
    sends = loop.sends;
    all_good =
        requests-IsPacket _ limit m fs loop.count small short fits
          (frames_carry p.serializer.format qos p.next_stream_id m.payload limit fs split).1;
  }

  -- Where `max_packet_size` is within the limit of MQTT and the joined topic is of at most 65535 bytes, whatever a
  -- publish queues, also before it fails, is a packet that MQTT 3.1.1 can encode, of at most `max_packet_size` bytes.
  pub publish_fits :
      (p : Publisher client.Queue) (value : codecs.Value) (meta : EndpointMetadata)
      → p.max_packet_size ≤ max_packet_size_limit
      → utf8_len (join_topic p.base_topic meta.topic) ≤ max_topic_len
      → Added client p.client
          (publish codecs client p value meta).0.client
          (IsPacket p.max_packet_size)
  unfolding publish
  publish_fits p value meta small short = elim (Result-cases (prepare codecs client p value meta)) [
    | inl (m, e) ↦
        let joined = (prepare-Ready codecs client p value meta m e).joined in
        rw (e, publish)
          (Outcome-Added (update_hint codecs client p m.payload) _ m meta.qos _ small
            (rw joined short) (dispatch-Outcome codecs client law _ m meta.qos))
    | inr (x, e) ↦ rw (e, publish) (nothing_added client p.client p.client _ refl)
  ]
