-- ===== src/Publisher/Room.antt =====
-- A publish without framing (crates/mqtt/v3/src/publisher.rs) on a queue that has room.
use blazebee.Base.{
  ℕ, ◌+◌, ◌≤◌, ◌<◌, ◌≡◌, refl, inl, inr, Bool, true, false, Option-cases, Result, ok, err,
  Result-cases, arith,
}
use blazebee.Error.{TransferError, queue_full}
use blazebee.Config.{EndpointMetadata}
use blazebee.Serializer.{Codecs, encode, serialize, compress}
use blazebee.Publisher.{
  Client, Publisher, Request, Message, request_of, prepare, enqueue, publish_whole, dispatch,
  publish, publish_overhead, checked_sub, update_hint, qos_of,
}

-- The queue's free places: a request is taken while there is one, and fills one.
pub record Room (client : Client) : Type 0 where
  pub room : client.Queue → ℕ
  pub takes :
      (q : client.Queue) (r : Request)
      → 0 < room q
      → ((client.try_publish q r).1 ≡ ok tt) × (room q ≤ room (client.try_publish q r).0 + 1)

abbrev pub is_full_error : TransferError → Bool
is_full_error queue_full = true
is_full_error _ = false

abbrev pub is_full {ℓ} : {A : Type ℓ} → Result TransferError A → Bool
is_full (ok a) = false
is_full (err e) = is_full_error e

module _ (codecs : Codecs) (client : Client) (free : Room client) where
  prepare_lem :
      (p : Publisher client.Queue) (value : codecs.Value) (meta : EndpointMetadata)
      → is_full (prepare codecs client p value meta) ≡ false
  unfolding prepare encode serialize compress qos_of
  prepare_lem p value meta = ground arith

  abbrev pub room_of : Publisher client.Queue → ℕ
  room_of p = free.room p.client

  -- Not refused for want of room, with at most one place taken, and still without framing.
  abbrev pub Fits :
      Publisher client.Queue → Publisher client.Queue × Result TransferError ℕ → Type 0
  Fits p (p', answer) =
      (is_full answer ≡ false) × (room_of p ≤ room_of p' + 1) × (p'.framing ≡ false)

  publish_whole-Fits :
      (p : Publisher client.Queue) (m : Message) (limit : ℕ)
      → p.framing ≡ false
      → 0 < room_of p
      → Fits p (publish_whole codecs client p m limit)
  unfolding publish_whole enqueue
  publish_whole-Fits p m limit off h = ground (arith, free.takes p.client (request_of m m.payload))

  dispatch-Fits :
      (p : Publisher client.Queue) (m : Message) (qos : ℕ)
      → p.framing ≡ false
      → 0 < room_of p
      → Fits p (dispatch codecs client p m qos)
  unfolding dispatch
  dispatch-Fits p m qos off h =
      elim (Option-cases (checked_sub p.max_packet_size (publish_overhead m.topic m.qos))) [
        | inl e ↦ rw (e, dispatch) ((refl, omega arith, off))
        | inr (limit, e) ↦ rw (e, dispatch) (simp off (publish_whole-Fits p m limit off h))
      ]

  pub publish-Fits :
      (p : Publisher client.Queue) (value : codecs.Value) (meta : EndpointMetadata)
      → p.framing ≡ false
      → 0 < room_of p
      → Fits p (publish codecs client p value meta)
  unfolding publish
  publish-Fits p value meta off h = elim (Result-cases (prepare codecs client p value meta)) [
    | inr (x, e) ↦ rw (e, publish) ((rw e at (prepare_lem p value meta), omega arith, off))
    | inl (m, e) ↦
        rw (e, publish) (dispatch-Fits (update_hint codecs client p m.payload) m meta.qos off h)
  ]
