-- ===== src/Publisher/Outcome.antt =====
-- The ways in which a publish can end (crates/mqtt/v3/src/publisher.rs).
use blazebee.Base.{
  ℕ, ◌+◌, ◌≤◌, ◌≡◌, refl, inl, inr, List, [], ◌∷◌, ◌++◌, Option-cases, some, length, Result, ok,
  err, Result-cases, arith, true, false, Bool-cases, ltb,
}
use blazebee.Error.{TransferError}
use blazebee.Framer.{Bytes, frames, frame_header_len}
use blazebee.Serializer.{Codecs}
use blazebee.Publisher.{
  Client, Behaves, Publisher, Message, request_of, enqueue_all, publish_whole, publish_frames,
  dispatch, take_stream_id, publish_overhead, checked_sub, counted,
}
use blazebee.Publisher.Queueing.{sent_by, enqueue_cases, Loop, enqueue_all-Loop}

checked_sub-eq_some : (a b c : ℕ) → checked_sub a b ≡ some c → b + c ≡ a
unfolding checked_sub
checked_sub-eq_some a b c h = ground arith

module _ (codecs : Codecs) (client : Client) (law : Behaves client) where
  -- How the publish of a ready message can end: with nothing sent, with the payload sent whole, or with
  -- a loop over frames.
  pub data Outcome (p p' : Publisher client.Queue) (m : Message) (qos : ℕ)
      (answer : Result TransferError ℕ) : Type 0 where
    refused :
        (e : TransferError)
        → answer ≡ err e
        → sent_by codecs client law p' ≡ sent_by codecs client law p
        → Outcome p p' m qos answer
    whole :
        p.framing ≡ false
        → answer ≡ ok (length m.payload)
        → publish_overhead m.topic m.qos + length m.payload ≤ p.max_packet_size
        → sent_by codecs client law p'
          ≡ sent_by codecs client law p ++ (request_of m m.payload ∷ [])
        → Outcome p p' m qos answer
    framed :
        (limit : ℕ) (fs : List Bytes) (done : Result TransferError (Unit {0}))
        → p.framing ≡ true
        → publish_overhead m.topic m.qos + limit ≡ p.max_packet_size
        → frames p.serializer.format qos p.next_stream_id m.payload limit ≡ ok fs
        → Loop codecs client law p p' m fs done
        → answer ≡ counted (length m.payload) done
        → Outcome p p' m qos answer

  publish_whole-Outcome :
      (p : Publisher client.Queue) (m : Message) (qos limit : ℕ)
      → p.framing ≡ false
      → publish_overhead m.topic m.qos + limit ≡ p.max_packet_size
      → let (p', answer) = publish_whole codecs client p m limit in Outcome p p' m qos answer
  unfolding publish_whole
  publish_whole-Outcome p m qos limit off fits = elim (Bool-cases (ltb limit (length m.payload))) [
    | inl big ↦ rw (big, publish_whole) (refused _ refl refl)
    | inr small ↦ elim (enqueue_cases codecs client law p (request_of m m.payload)) [
      | inl (good, sends) ↦
          rw (small, publish_whole) (rw good (whole off refl (ground (arith, small)) sends))
      | inr (e, bad, refusal, same) ↦ rw (small, publish_whole) (rw bad (refused e refl same))
    ]
  ]

  publish_frames-Outcome :
      (p : Publisher client.Queue) (m : Message) (qos limit : ℕ)
      → p.framing ≡ true
      → publish_overhead m.topic m.qos + limit ≡ p.max_packet_size
      → let (p', answer) = publish_frames codecs client p m qos limit in Outcome p p' m qos answer
  unfolding publish_frames
  publish_frames-Outcome p m qos limit on fits = elim (Bool-cases (ltb limit frame_header_len)) [
    | inl small ↦ rw (small, publish_frames) (refused _ refl refl)
    | inr large ↦
        elim (Result-cases (frames p.serializer.format qos p.next_stream_id m.payload limit)) [
          | inl (fs, e) ↦ rw (large, publish_frames) (rw e (framed limit fs _ on fits e loop refl))
          | inr (e, bad) ↦ rw (large, publish_frames) (rw bad (refused e refl refl))
        ]
  ]
    where
      next : Publisher client.Queue
      next = take_stream_id codecs client p

      loop :
          {fs : List Bytes}
          → Loop codecs client law p
              (enqueue_all codecs client next m fs).0
              m
              fs
              (enqueue_all codecs client next m fs).1
      loop {fs} =
          let done = enqueue_all-Loop codecs client law next m fs in
          record { count = done.count; sends = done.sends; outcome = done.outcome }

  pub dispatch-Outcome :
      (p : Publisher client.Queue) (m : Message) (qos : ℕ)
      → let (p', answer) = dispatch codecs client p m qos in Outcome p p' m qos answer
  unfolding dispatch
  dispatch-Outcome p m qos =
      elim (Option-cases (checked_sub p.max_packet_size (publish_overhead m.topic m.qos))) [
        | inl e ↦ rw (e, dispatch) (refused _ refl refl)
        | inr (limit, e) ↦
            let fits =
              checked_sub-eq_some p.max_packet_size (publish_overhead m.topic m.qos) limit e in
            elim (Bool-cases p.framing) [
              | inl on ↦ rw (e, dispatch) (simp on (publish_frames-Outcome p m qos limit on fits))
              | inr off ↦ rw (e, dispatch) (simp off (publish_whole-Outcome p m qos limit off fits))
            ]
      ]
