-- ===== src/Publisher/Queueing.antt =====
-- What a publish leaves in the client's queue (crates/mqtt/v3/src/publisher.rs).
use blazebee.Base.{
  ℕ, suc, ◌<◌, ◌≡◌, refl, sym, ap, ◌∙◌, ◌⊎◌, inl, inr, List, [], ◌∷◌, ◌++◌, map, append_assoc,
  append-nil, length, take, Result, ok, err, Result-cases, arith,
}
use blazebee.Error.{TransferError, ClientError, queue_full, closed, from_client_error}
use blazebee.Framer.{Bytes}
use blazebee.Serializer.{Codecs}
use blazebee.Publisher.{
  Client, Behaves, Publisher, Request, Message, request_of, enqueue, enqueue_all,
}

-- The two ways in which the client refuses a request.
abbrev pub IsRefusal : TransferError → Type 0
IsRefusal e = (e ≡ queue_full) ⊎ (e ≡ closed)

from_client_error-IsRefusal : (e : ClientError) → IsRefusal (from_client_error e)
unfolding from_client_error
from_client_error-IsRefusal ClientError.try_request = inl refl
from_client_error-IsRefusal ClientError.request = inr refl

module _ (codecs : Codecs) (client : Client) (law : Behaves client) where
  abbrev pub sent_by : Publisher client.Queue → List Request
  sent_by p = client.sent p.client

  -- One request: taken at the end of the queue, or refused.
  pub enqueue_cases :
      (p : Publisher client.Queue) (r : Request)
      → let (p', answer) = enqueue codecs client p r in
        ((answer ≡ ok tt) × (sent_by p' ≡ sent_by p ++ (r ∷ [])))
        ⊎ ((e : TransferError) × (answer ≡ err e) × IsRefusal e × (sent_by p' ≡ sent_by p))
  unfolding enqueue
  enqueue_cases p r = elim (Result-cases (client.try_publish p.client r).1) [
    | inl (tt, e) ↦ inl (rw e, law.takes p.client r e)
    | inr (x, e) ↦
        inr (from_client_error x, rw e, from_client_error-IsRefusal x, law.refuses p.client r x e)
  ]

  -- What a loop over frames did: `count` of them were taken, all of them exactly when it went well.
  pub record Loop (p p' : Publisher client.Queue) (m : Message) (fs : List Bytes)
      (answer : Result TransferError (Unit {0})) : Type 0 where
    pub count : ℕ
    pub sends : sent_by p' ≡ sent_by p ++ map (request_of m) (take count fs)
    pub outcome :
        ((answer ≡ ok tt) × (count ≡ length fs))
        ⊎ ((e : TransferError) × (answer ≡ err e) × IsRefusal e × (count < length fs))

  next-Loop :
      (p p' p'' : Publisher client.Queue) (m : Message) (f : Bytes) (fs : List Bytes)
      (answer : Result TransferError (Unit {0}))
      → sent_by p' ≡ sent_by p ++ (request_of m f ∷ [])
      → Loop p' p'' m fs answer
      → Loop p p'' m (f ∷ fs) answer
  next-Loop p p' p'' m f fs answer first rest = record {
    count = suc rest.count;
    sends =
        rest.sends
        ∙ rw first (
            append_assoc (sent_by p) (request_of m f ∷ [])
              (map (request_of m) (take rest.count fs)));
    outcome = next rest.outcome;
  }
    where
      next :
          ((answer ≡ ok tt) × (rest.count ≡ length fs))
            ⊎ ((e : TransferError) × (answer ≡ err e) × IsRefusal e × (rest.count < length fs))
          → ((answer ≡ ok tt) × (suc rest.count ≡ length (f ∷ fs)))
            ⊎ ((e : TransferError) × (answer ≡ err e)
                × IsRefusal e
                × (suc rest.count < length (f ∷ fs)))
      next (inl (good, n)) = inl (good, ap suc n)
      next (inr (e, bad, refusal, n)) = inr (e, bad, refusal, omega arith)

  pub enqueue_all-Loop :
      (p : Publisher client.Queue) (m : Message) (fs : List Bytes)
      → Loop p (enqueue_all codecs client p m fs).0 m fs (enqueue_all codecs client p m fs).1
  unfolding enqueue_all
  enqueue_all-Loop p m [] = record {
    count = 0;
    sends = sym (append-nil (sent_by p));
    outcome = inl (refl, refl);
  }
  enqueue_all-Loop p m (f ∷ fs) = elim (enqueue_cases p (request_of m f)) [
    | inl (good, sends) ↦
        rw (good, enqueue_all)
          (next-Loop p _ _ m f fs _ sends
            (enqueue_all-Loop (enqueue codecs client p (request_of m f)).0 m fs))
    | inr (e, bad, refusal, same) ↦
        rw (bad, enqueue_all)
          (record {
            count = 0;
            sends = same ∙ sym (append-nil (sent_by p));
            outcome = inr (e, refl, refusal, omega arith);
          })
  ]
