-- ===== src/Publisher/Delivery.antt =====
-- What a subscriber can read back from what crates/mqtt/v3/src/publisher.rs queued.
use blazebee.Base.{
  ℕ, ◌^◌, ◌<◌, ◌≡◌, refl, ap, ◌∙◌, ◌⊎◌, inl, inr, [], ◌∷◌, ◌++◌, map, Result, ok, err, Result-cases,
  arith,
}
use blazebee.Error.{TransferError}
use blazebee.Config.{EndpointMetadata}
use blazebee.Serializer.{Codecs}
use blazebee.Publisher.{
  Client, Behaves, Publisher, Message, request_of, publish, prepare, update_hint,
}
use blazebee.Publisher.Outcome.{Outcome, refused, whole, framed, dispatch-Outcome}
use blazebee.Publisher.Ready.{
  plain, qos_of_bound, Ready, prepare-Ready, Delivered, Broken, take_all, frames-Carries,
  hint-Ready, Delivered-hint, Broken-hint,
}

module _ (codecs : Codecs) (client : Client) (law : Behaves client) where
  Outcome-Delivered :
      (p p' : Publisher client.Queue) (value : codecs.Value) (meta : EndpointMetadata) (m : Message)
      (n : ℕ) {answer : Result TransferError ℕ}
      → p.next_stream_id < 2 ^ 64
      → Ready codecs client p value meta m
      → answer ≡ ok n
      → Outcome codecs client law p p' m meta.qos answer
      → Delivered codecs client p p' value meta n
  Outcome-Delivered p p' value meta m n hs ready good (refused e bad same) = cc
  Outcome-Delivered p p' value meta m n hs ready good (whole off done fits sends) = record {
    message = m;
    ready = ready;
    counts = cc;
    parts = m.payload ∷ [];
    sends = sends;
    carries = plain off refl;
  }
  Outcome-Delivered p p' value meta m n hs ready good
        (framed limit fs done on fits made loop result) =
      elim loop.outcome [
        | inl (fine, count) ↦ record {
          message = m;
          ready = ready;
          counts = cc;
          parts = fs;
          sends =
              loop.sends
              ∙ ap (λ part. client.sent p.client ++ map (request_of m) part)
                  (take_all codecs client fs loop.count count);
          carries =
              frames-Carries codecs client p m.payload meta.qos limit fs on
                (qos_of_bound meta.qos ready.accepted) hs made;
        }
        | inr (e, bad, _, _) ↦ cc
      ]

  -- With a u64 as its stream id, a publish that answers with a number of bytes has queued the whole encoded payload,
  -- for the joined topic, and that number is its length.
  pub publish_delivers :
      (p : Publisher client.Queue) (value : codecs.Value) (meta : EndpointMetadata) (n : ℕ)
      → p.next_stream_id < 2 ^ 64
      → (publish codecs client p value meta).1 ≡ ok n
      → Delivered codecs client p (publish codecs client p value meta).0 value meta n
  unfolding publish
  publish_delivers p value meta n hs good =
      elim (Result-cases (prepare codecs client p value meta)) [
        | inr (x, e) ↦ cc (rw (e, publish) at good)
        | inl (m, e) ↦
            let q = update_hint codecs client p m.payload in
            let ready =
              hint-Ready codecs client p p value meta m.payload
                (prepare-Ready codecs client p value meta m e) in
            let answer = rw (e, publish) at good in
            rw (e, publish)
              (Delivered-hint codecs client p _ value meta m.payload (
                Outcome-Delivered q _ value meta m n hs ready answer
                  (dispatch-Outcome codecs client law q m meta.qos)))
      ]

  Outcome-Broken :
      (p p' : Publisher client.Queue) (value : codecs.Value) (meta : EndpointMetadata) (m : Message)
      (e : TransferError) {answer : Result TransferError ℕ}
      → p.next_stream_id < 2 ^ 64
      → Ready codecs client p value meta m
      → answer ≡ err e
      → Outcome codecs client law p p' m meta.qos answer
      → (client.sent p'.client ≡ client.sent p.client) ⊎ Broken codecs client p p' value meta e
  Outcome-Broken p p' value meta m e hs ready bad (refused x same_error same) = inl same
  Outcome-Broken p p' value meta m e hs ready bad (whole off done fits sends) = cc
  Outcome-Broken p p' value meta m e hs ready bad (framed limit fs done on fits made loop result) =
      elim loop.outcome [
        | inl (fine, count) ↦ cc
        | inr (x, stop, refusal, short) ↦
            let same : x ≡ e = ground (arith, stop, result, bad) in
            inr (record {
              message = m;
              ready = ready;
              framing_on = on;
              refusal = rw (← same) refusal;
              parts = fs;
              count = loop.count;
              count_short = short;
              sends = loop.sends;
              carries =
                  frames-Carries codecs client p m.payload meta.qos limit fs on
                    (qos_of_bound meta.qos ready.accepted) hs made;
            })
      ]

  -- With a u64 as its stream id, a publish that fails has queued nothing, except that in framing mode a refusal by
  -- the queue leaves the first frames of the payload behind, never all of them.
  pub publish_fails :
      (p : Publisher client.Queue) (value : codecs.Value) (meta : EndpointMetadata)
      (e : TransferError)
      → p.next_stream_id < 2 ^ 64
      → (publish codecs client p value meta).1 ≡ err e
      → let p' = (publish codecs client p value meta).0 in
        (client.sent p'.client ≡ client.sent p.client) ⊎ Broken codecs client p p' value meta e
  unfolding publish
  publish_fails p value meta e hs bad = elim (Result-cases (prepare codecs client p value meta)) [
    | inr (x, stop) ↦ rw (stop, publish) (inl refl)
    | inl (m, good) ↦
        let q = update_hint codecs client p m.payload in
        let ready =
          hint-Ready codecs client p p value meta m.payload
            (prepare-Ready codecs client p value meta m good) in
        let answer = rw (good, publish) at bad in
        rw (good, publish)
          (elim (Outcome-Broken q _ value meta m e hs ready answer
            (dispatch-Outcome codecs client law q m meta.qos)) [
              | inl same ↦ inl same
              | inr broken ↦ inr (Broken-hint codecs client p _ value meta m.payload broken)
            ])
  ]
