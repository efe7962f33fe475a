-- ===== src/Publisher/Streams.antt =====
-- What a publish changes besides the queue: the stream id and the size hint
-- (crates/mqtt/v3/src/publisher.rs).
use blazebee.Base.{
  ℕ, ◌+◌, ◌%◌, ◌^◌, ◌≤◌, ◌<◌, ◌≡◌, ◌≢◌, refl, sym, subst, ap, ◌∙◌, ◌⊎◌, inl, inr, true, List, [],
  ◌∷◌, length, ok, Result-cases, Option-cases, Bool-cases, arith, ltb,
}
use blazebee.Config.{EndpointMetadata}
use blazebee.Framer.{Bytes, frames, frame_header_len}
use blazebee.Serializer.{Codecs}
use blazebee.Publisher.{
  Client, Publisher, Message, request_of, enqueue, enqueue_all, publish, prepare, dispatch,
  publish_whole, publish_frames, checked_sub, publish_overhead, update_hint, take_stream_id,
}

module _ (codecs : Codecs) (client : Client) where
  -- Only the client's queue may differ.
  OnlyQueue : Publisher client.Queue → Publisher client.Queue → Type 0
  OnlyQueue p p' = p' ≡ record p { client = p'.client }

  enqueue_all-OnlyQueue :
      (p : Publisher client.Queue) (m : Message) (fs : List Bytes)
      → OnlyQueue p (enqueue_all codecs client p m fs).0
  unfolding enqueue_all OnlyQueue enqueue
  enqueue_all-OnlyQueue p m [] = refl
  enqueue_all-OnlyQueue p m (f ∷ fs) =
      elim (Result-cases (enqueue codecs client p (request_of m f)).1) [
        | inl (done, e) ↦
            rw (e, enqueue_all)
              (enqueue_all-OnlyQueue (enqueue codecs client p (request_of m f)).0 m fs ∙ refl)
        | inr (x, e) ↦ rw (e, enqueue_all)
      ]

  -- A step leaves the settings as they are, never shrinks the hint, and uses one stream id or none.
  pub record Keeps (p p' : Publisher client.Queue) : Type 0 where
    pub base_topic_kept : p'.base_topic ≡ p.base_topic
    pub serializer_kept : p'.serializer ≡ p.serializer
    pub framing_kept : p'.framing ≡ p.framing
    pub limit_kept : p'.max_packet_size ≡ p.max_packet_size
    pub hint_grows : p.size_hint ≤ p'.size_hint
    pub stream_used :
        (p'.next_stream_id ≡ p.next_stream_id)
        ⊎ ((p.framing ≡ true) × (p'.next_stream_id ≡ (p.next_stream_id + 1) % 2 ^ 64))

  Keeps-OnlyQueue : (p q p' : Publisher client.Queue) → Keeps p q → OnlyQueue q p' → Keeps p p'
  unfolding OnlyQueue
  Keeps-OnlyQueue p q p' k e = subst (Keeps p) (sym e) (record {
    base_topic_kept = k.base_topic_kept;
    serializer_kept = k.serializer_kept;
    framing_kept = k.framing_kept;
    limit_kept = k.limit_kept;
    hint_grows = k.hint_grows;
    stream_used = k.stream_used;
  })

  Keeps-refl : (p : Publisher client.Queue) → Keeps p p
  Keeps-refl p = record {
    base_topic_kept = refl;
    serializer_kept = refl;
    framing_kept = refl;
    limit_kept = refl;
    hint_grows = omega arith;
    stream_used = inl refl;
  }

  took_stream :
      (p : Publisher client.Queue) → p.framing ≡ true → Keeps p (take_stream_id codecs client p)
  took_stream p on = record {
    base_topic_kept = refl;
    serializer_kept = refl;
    framing_kept = refl;
    limit_kept = refl;
    hint_grows = omega arith;
    stream_used = inr (on, refl);
  }

  publish_whole-Keeps :
      (p : Publisher client.Queue) (m : Message) (limit : ℕ)
      → Keeps p (publish_whole codecs client p m limit).0
  unfolding publish_whole enqueue OnlyQueue
  publish_whole-Keeps p m limit = elim (Bool-cases (ltb limit (length m.payload))) [
    | inl big ↦ rw (big, publish_whole) (Keeps-refl p)
    | inr small ↦ rw (small, publish_whole) (Keeps-OnlyQueue p p _ (Keeps-refl p) refl)
  ]

  publish_frames-Keeps :
      (p : Publisher client.Queue) (m : Message) (qos limit : ℕ)
      → p.framing ≡ true
      → Keeps p (publish_frames codecs client p m qos limit).0
  unfolding publish_frames
  publish_frames-Keeps p m qos limit on = elim (Bool-cases (ltb limit frame_header_len)) [
    | inl small ↦ rw (small, publish_frames) (Keeps-refl p)
    | inr large ↦
        elim (Result-cases (frames p.serializer.format qos p.next_stream_id m.payload limit)) [
          | inl (fs, e) ↦
              rw (large, publish_frames)
                (rw e (
                  Keeps-OnlyQueue p (take_stream_id codecs client p) _ (took_stream p on)
                    (enqueue_all-OnlyQueue _ m fs)))
          | inr (x, e) ↦ rw (large, publish_frames) (rw e (took_stream p on))
        ]
  ]

  dispatch-Keeps :
      (p : Publisher client.Queue) (m : Message) (qos : ℕ)
      → Keeps p (dispatch codecs client p m qos).0
  unfolding dispatch
  dispatch-Keeps p m qos =
      elim (Option-cases (checked_sub p.max_packet_size (publish_overhead m.topic m.qos))) [
        | inl e ↦ rw (e, dispatch) (Keeps-refl p)
        | inr (limit, e) ↦ elim (Bool-cases p.framing) [
          | inl on ↦ rw (e, dispatch) (simp on (publish_frames-Keeps p m qos limit on))
          | inr off ↦ rw (e, dispatch) (simp off (publish_whole-Keeps p m limit))
        ]
      ]

  -- A publish changes no setting, never shrinks the size hint, and uses a stream id only in framing mode, one at most.
  pub publish-Keeps :
      (p : Publisher client.Queue) (value : codecs.Value) (meta : EndpointMetadata)
      → Keeps p (publish codecs client p value meta).0
  unfolding publish
  publish-Keeps p value meta = elim (Result-cases (prepare codecs client p value meta)) [
    | inr (x, e) ↦ rw (e, publish) (Keeps-refl p)
    | inl (m, e) ↦
        let k = dispatch-Keeps (update_hint codecs client p m.payload) m meta.qos in
        rw (e, publish)
          (record {
            base_topic_kept = k.base_topic_kept;
            serializer_kept = k.serializer_kept;
            framing_kept = k.framing_kept;
            limit_kept = k.limit_kept;
            hint_grows = omega (arith, k.hint_grows);
            stream_used = k.stream_used;
          })
  ]

  publish_frames_stream :
      (p : Publisher client.Queue) (m : Message) (qos limit n : ℕ)
      → (publish_frames codecs client p m qos limit).1 ≡ ok n
      → (publish_frames codecs client p m qos limit).0.next_stream_id
        ≡ (p.next_stream_id + 1) % 2 ^ 64
  unfolding publish_frames OnlyQueue
  publish_frames_stream p m qos limit n good = elim (Bool-cases (ltb limit frame_header_len)) [
    | inl small ↦ cc (rw (small, publish_frames) at good)
    | inr large ↦
        elim (Result-cases (frames p.serializer.format qos p.next_stream_id m.payload limit)) [
          | inl (fs, e) ↦
              rw (large, publish_frames)
                (rw e (
                  ap (λ q. q.next_stream_id)
                    (enqueue_all-OnlyQueue (take_stream_id codecs client p) m fs)))
          | inr (x, e) ↦ rw (large, publish_frames) (rw e refl)
        ]
  ]

  dispatch_stream :
      (p : Publisher client.Queue) (m : Message) (qos n : ℕ)
      → p.framing ≡ true
      → (dispatch codecs client p m qos).1 ≡ ok n
      → (dispatch codecs client p m qos).0.next_stream_id ≡ (p.next_stream_id + 1) % 2 ^ 64
  unfolding dispatch
  dispatch_stream p m qos n on good =
      elim (Option-cases (checked_sub p.max_packet_size (publish_overhead m.topic m.qos))) [
        | inl e ↦ cc (rw (e, dispatch) at good)
        | inr (limit, e) ↦
            let framed = simp on at (rw (e, dispatch) at good) in
            rw (e, dispatch) (simp on (publish_frames_stream p m qos limit n framed))
      ]

  -- With a u64 as its stream id, a framed publish that went well has used up its stream id: the next payload gets
  -- another one.
  pub publish_stream :
      (p : Publisher client.Queue) (value : codecs.Value) (meta : EndpointMetadata) (n : ℕ)
      → p.framing ≡ true
      → p.next_stream_id < 2 ^ 64
      → (publish codecs client p value meta).1 ≡ ok n
      → let p' = (publish codecs client p value meta).0 in
        (p'.next_stream_id ≡ (p.next_stream_id + 1) % 2 ^ 64)
        × (p'.next_stream_id ≢ p.next_stream_id)
  unfolding publish
  publish_stream p value meta n on fits good =
      elim (Result-cases (prepare codecs client p value meta)) [
        | inr (x, e) ↦ cc (rw (e, publish) at good)
        | inl (m, e) ↦
            let next =
              dispatch_stream (update_hint codecs client p m.payload) m meta.qos n on
                (rw (e, publish) at good) in
            rw (e, publish) (next, (λ same. omega (arith, next)))
      ]
