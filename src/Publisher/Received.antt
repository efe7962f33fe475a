-- ===== src/Publisher/Received.antt =====
-- What reaches a consumer of what crates/mqtt/v3/src/publisher.rs queues, through frames, compression and
-- serialization.
use blazebee.Base.{
  ℕ, zero, suc, ◌^◌, ◌<◌, ◌≡◌, refl, ap, ◌∙◌, Option, none, some, List, [], ◌∷◌, ◌++◌, map, ok,
  arith, length, drop, if◌then◌else◌, get_elem?,
}
use blazebee.Config.{EndpointMetadata}
use blazebee.Framer.{Bytes}
use blazebee.Framer.Reassembly.{Arrives, reassemble, reassemble_numbered}
use blazebee.Serializer.{Codecs}
use blazebee.Serializer.Reading.{Reader, Inverts, receive, receive-encode}
use blazebee.Publisher.{Client, Behaves, Publisher, Message, Request, request_of, publish}
use blazebee.Publisher.Ready.{Carries, plain, split}
use blazebee.Publisher.Delivery.{publish_delivers}

-- The payloads that arrive: the frames of one sample, or the sample.
unfoldable pub consume :
    {Queue Value : Type 0} → Reader Value → Publisher Queue → List Bytes → Option Value
consume reader p [] = none
consume reader p (b ∷ bs) =
    if p.framing
    then elim (reassemble (b ∷ bs)) [
      | none ↦ none
      | some payload ↦ receive reader p.serializer payload
    ]
    else receive reader p.serializer b

drop-append {ℓ} : {A : Type ℓ} (xs ys : List A) → drop (length xs) (xs ++ ys) ≡ ys
drop-append [] ys = refl
drop-append (x ∷ xs) ys = drop-append xs ys

module _ (codecs : Codecs) (client : Client) (law : Behaves client) (reader : Reader codecs.Value)
    (inverts : Inverts codecs reader) where
  only_one : (payload x : Bytes) (i : ℕ) → get_elem? (payload ∷ []) i ≡ some x → x ≡ payload
  only_one payload x zero h = cc
  only_one payload x (suc i) h = cc

  consume-Carries :
      (p : Publisher client.Queue) (value : codecs.Value) (qos : ℕ) (payload : Bytes)
      (parts arrived : List Bytes)
      → receive reader p.serializer payload ≡ some value
      → Carries p.framing p.serializer.format qos p.next_stream_id payload parts
      → Arrives parts arrived
      → consume reader p arrived ≡ some value
  unfolding consume
  consume-Carries p value qos payload parts [] reads c a = absurd (omega (arith, a.some_come))
  consume-Carries p value qos payload parts (x ∷ xs) reads (plain off whole) a =
      let (i, at_i) = a.of_these 0 x refl in
      let same = only_one payload x i (rw whole at at_i) in rw (consume, off, same) reads
  consume-Carries p value qos payload parts (x ∷ xs) reads (split on spells numbered) a =
      let joined =
        reassemble_numbered p.serializer.format qos p.next_stream_id parts numbered payload (x ∷ xs)
          spells a in
      rw (consume, on, joined) reads

  -- The payloads that a publish adds to what the client was given before.
  abbrev pub payloads_of : Publisher client.Queue → Publisher client.Queue → List Bytes
  payloads_of p p' =
      map (λ (r : Request). r.payload)
        (drop (length (client.sent p.client)) (client.sent p'.client))

  payload_request :
      (m : Message) (parts : List Bytes)
      → map (λ (r : Request). r.payload) (map (request_of m) parts) ≡ parts
  payload_request m [] = refl
  payload_request m (b ∷ bs) = ap (◌∷◌ b) (payload_request m bs)

  -- With a u64 as its stream id, a publish that succeeds queues payloads from which a consumer that knows the
  -- settings gets the very value back, whatever the order in which the frames reach it, and however often. The
  -- consumer's readers undo the formats, and no serialized value starts as a compressed stream does.
  pub publish_received :
      (p : Publisher client.Queue) (value : codecs.Value) (meta : EndpointMetadata) (n : ℕ)
      (arrived : List Bytes)
      → p.next_stream_id < 2 ^ 64
      → (publish codecs client p value meta).1 ≡ ok n
      → Arrives (payloads_of p (publish codecs client p value meta).0) arrived
      → consume reader p arrived ≡ some value
  publish_received p value meta n arrived hs good come =
      let d = publish_delivers codecs client law p value meta n hs good in
      let added =
        ap (λ rs. map (λ (r : Request). r.payload) (drop (length (client.sent p.client)) rs))
          d.sends
        ∙ ap (map (λ (r : Request). r.payload))
            (drop-append (client.sent p.client) (map (request_of d.message) d.parts))
        ∙ payload_request d.message d.parts in
      consume-Carries p value meta.qos d.message.payload d.parts arrived
        (receive-encode codecs reader inverts p.serializer value d.message.payload d.ready.encoded)
        d.carries (rw added at come)
