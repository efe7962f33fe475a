-- ===== src/Publisher.antt =====
-- crates/mqtt/v3/src/publisher.rs: encodes a value and hands it to the client, whole or in frames.
pub mod Queueing
pub mod Outcome
pub mod Packets
pub mod Ready
pub mod Delivery
pub mod Received
pub mod Topics
pub mod Streams
pub mod Room
use blazebee.Base.{
  ℕ, zero, suc, ◌+◌, ◌-◌, ◌%◌, ◌^◌, ◌≡◌, max, Bool, true, false, not, Option, none, some, List, [],
  ◌∷◌, ◌++◌, length, ltb, ◌==◌, if◌then◌else◌, Result, ok, err, map_err, ok_or,
}
use blazebee.Base.Text.{Text, is_empty, trim_start_matches, trim_end_matches, utf8_len}
use blazebee.Error.{TransferError, ClientError, from_client_error}
use blazebee.Config.{Config, EndpointMetadata, SerializationFormat}
use blazebee.Framer.{Bytes, frame_header_len, frames}
use blazebee.Serializer.{Codecs, Serializer, encode}
use blazebee.Serializer

pub data QoS : Type 0 where
  at_most_once at_least_once exactly_once : QoS

-- A PUBLISH request in the client's queue.
pub record Request : Type 0 where
  pub topic : Text
  pub qos : QoS
  pub retain : Bool
  pub payload : Bytes

-- rumqttc::AsyncClient: the bounded queue towards the event loop, what it is asked, and the
-- PUBLISH requests that it has taken so far.
pub record Client : Type 1 where
  pub Queue : Type 0
  pub try_publish : Queue → Request → Queue × Result ClientError (Unit {0})
  pub try_disconnect : Queue → Queue × Result ClientError (Unit {0})
  pub sent : Queue → List Request

-- `try_publish` takes the request to the end of the queue, or refuses it and changes nothing;
-- `try_disconnect` publishes nothing.
pub record Behaves (client : Client) : Type 0 where
  pub takes :
      (q : client.Queue) (r : Request)
      → (client.try_publish q r).1 ≡ ok tt
      → client.sent (client.try_publish q r).0 ≡ client.sent q ++ (r ∷ [])
  pub refuses :
      (q : client.Queue) (r : Request) (e : ClientError)
      → (client.try_publish q r).1 ≡ err e
      → client.sent (client.try_publish q r).0 ≡ client.sent q
  pub disconnects : (q : client.Queue) → client.sent (client.try_disconnect q).0 ≡ client.sent q

unfoldable pub join_topic : Text → Text → Text
join_topic base topic =
    let topic' = trim_start_matches (λ c. c == b'/') topic in
    let base' = trim_end_matches (λ c. c == b'/') base in
    if is_empty base' then topic' else base' ++ (b'/' ∷ topic')

abbrev pid_len : QoS → ℕ
pid_len at_most_once = 0
pid_len at_least_once = 2
pid_len exactly_once = 2

unfoldable pub publish_overhead : Text → QoS → ℕ
publish_overhead topic qos = 1 + 4 + 2 + utf8_len topic + pid_len qos

unfoldable pub qos_of : ℕ → Result TransferError QoS
qos_of zero = ok at_most_once
qos_of (suc zero) = ok at_least_once
qos_of (suc (suc zero)) = ok exactly_once
qos_of (suc (suc (suc n))) = err (TransferError.invalid_qos (suc (suc (suc n))))

unfoldable pub checked_sub : ℕ → ℕ → Option ℕ
checked_sub a b = if ltb a b then none else some (a - b)

pub record Publisher (Queue : Type 0) : Type 0 where
  pub client : Queue
  pub base_topic : Text
  pub serializer : Serializer
  pub framing : Bool
  pub max_packet_size : ℕ
  pub next_stream_id : ℕ
  pub size_hint : ℕ

-- Publisher::new
abbrev pub new : {Queue : Type 0} → Queue → Config → Publisher Queue
new client c = record {
  client = client;
  base_topic = c.base_topic;
  serializer = Serializer.new c.serialization;
  framing = c.framing.enabled;
  max_packet_size = c.max_packet_size;
  next_stream_id = 1;
  size_hint = 256;
}

-- A value made ready: where it goes, and its bytes.
pub record Message : Type 0 where
  pub topic : Text
  pub qos : QoS
  pub retain : Bool
  pub payload : Bytes

abbrev pub request_of : Message → Bytes → Request
request_of m bytes = record { topic = m.topic; qos = m.qos; retain = m.retain; payload = bytes }

abbrev pub too_large : {Queue : Type 0} → Publisher Queue → Message → TransferError
too_large p m = TransferError.payload_too_large (length m.payload) p.max_packet_size

-- `Ok(n)` behind a `?`.
abbrev pub counted : ℕ → Result TransferError (Unit {0}) → Result TransferError ℕ
counted n (ok done) = ok n
counted n (err e) = err e

module _ (codecs : Codecs) (client : Client) where
  open client use {Queue, try_publish}

  unfoldable pub prepare :
      Publisher Queue → codecs.Value → EndpointMetadata → Result TransferError Message
  prepare p value meta = elim (qos_of meta.qos) [
    | err e ↦ err e
    | ok qos ↦ elim (encode codecs p.serializer value) [
      | err e ↦ err e
      | ok payload ↦ ok (record {
        topic = join_topic p.base_topic meta.topic;
        qos = qos;
        retain = meta.retain;
        payload = payload;
      })
    ]
  ]

  -- `self.client.try_publish(..)?`
  unfoldable pub enqueue :
      Publisher Queue → Request → Publisher Queue × Result TransferError (Unit {0})
  enqueue p r =
      let (q, answer) = try_publish p.client r in
      (record p { client = q }, map_err from_client_error answer)

  -- The loop over the frames; it ends at the first refusal.
  unfoldable pub enqueue_all :
      Publisher Queue → Message → List Bytes → Publisher Queue × Result TransferError (Unit {0})
  enqueue_all p m [] = (p, ok tt)
  enqueue_all p m (f ∷ fs) = elim (enqueue p (request_of m f)).1 [
    | ok done ↦ enqueue_all (enqueue p (request_of m f)).0 m fs
    | err e ↦ ((enqueue p (request_of m f)).0, err e)
  ]

  abbrev answer_with :
      ℕ
      → Publisher Queue × Result TransferError (Unit {0})
      → Publisher Queue × Result TransferError ℕ
  answer_with n r = (r.0, counted n r.1)

  unfoldable pub publish_whole :
      Publisher Queue → Message → ℕ → Publisher Queue × Result TransferError ℕ
  publish_whole p m max_payload =
      if ltb max_payload (length m.payload)
      then (p, err (too_large p m))
      else answer_with (length m.payload) (enqueue p (request_of m m.payload))

  -- `fetch_add` wraps.
  abbrev take_stream_id : Publisher Queue → Publisher Queue
  take_stream_id p = record p { next_stream_id = (p.next_stream_id + 1) % 2 ^ 64 }

  unfoldable pub publish_frames :
      Publisher Queue → Message → ℕ → ℕ → Publisher Queue × Result TransferError ℕ
  publish_frames p m qos max_payload =
      if ltb max_payload frame_header_len
      then (p, err (too_large p m))
      else elim (frames p.serializer.format qos p.next_stream_id m.payload max_payload) [
        | ok fs ↦ answer_with (length m.payload) (enqueue_all (take_stream_id p) m fs)
        | err e ↦ (take_stream_id p, err e)
      ]

  abbrev update_hint : Publisher Queue → Bytes → Publisher Queue
  update_hint p payload = record p { size_hint = max p.size_hint (length payload) }

  -- What follows `encode` in `publish`.
  unfoldable pub dispatch : Publisher Queue → Message → ℕ → Publisher Queue × Result TransferError ℕ
  dispatch p m qos = elim (checked_sub p.max_packet_size (publish_overhead m.topic m.qos)) [
    | none ↦ (p, err (too_large p m))
    | some max_payload ↦
        if p.framing then publish_frames p m qos max_payload else publish_whole p m max_payload
  ]

  unfoldable pub publish :
      Publisher Queue → codecs.Value → EndpointMetadata → Publisher Queue × Result TransferError ℕ
  publish p value meta = elim (prepare p value meta) [
    | err e ↦ (p, err e)
    | ok m ↦ dispatch (update_hint p m.payload) m meta.qos
  ]
