-- ===== src/Framer/Reassembly.antt =====
-- What a consumer can do with the frames of crates/mqtt/v3/src/framer.rs, which the documentation
-- (configuration/mqtt.md) leaves to it: find the frames by their index, and join what follows their headers.
use blazebee.Base.{
  ℕ, zero, suc, ◌+◌, ◌^◌, ◌<◌, ◌≡◌, refl, ap, ◌∙◌, Bool, false, Option, none, some, List, [], ◌∷◌,
  ◌++◌, map, drop, length, get_elem?, ok, ◌==◌, ==_iff, Bool-cases, inl, inr, arith, if◌then◌else◌,
}
use mathlib.Core.List.{flatten}
use blazebee.Config.{SerializationFormat}
use blazebee.Framer.{Bytes, FrameHeader, decode, frames, frame_header_len}
use blazebee.Framer.Split.{header_at, frames_carry, frames_numbered}

abbrev has_index : ℕ → Option FrameHeader → Bool
has_index i none = false
has_index i (some h) = h.frame_index == i

-- The first frame with an index.
unfoldable pub pick : ℕ → List Bytes → Option Bytes
pick i [] = none
pick i (f ∷ fs) = let rest = pick i fs in if has_index i (decode f) then some f else rest

-- What so many frames carry, from an index on.
unfoldable pub gather : List Bytes → ℕ → ℕ → Option Bytes
gather arrived zero i = some []
gather arrived (suc n) i =
    let rest = gather arrived n (i + 1) in
    elim (pick i arrived) [
      | none ↦ none
      | some f ↦ elim rest [ none ↦ none | some bytes ↦ some (drop frame_header_len f ++ bytes) ]
    ]

-- The number of frames is the one that the first header says.
unfoldable pub reassemble : List Bytes → Option Bytes
reassemble [] = none
reassemble (f ∷ fs) = elim (decode f) [ none ↦ none | some h ↦ gather (f ∷ fs) h.frame_total 0 ]

-- The frames come in any order, and any of them more than once.
pub record Arrives (fs arrived : List Bytes) : Type 0 where
  pub some_come : 0 < length arrived
  pub of_these :
      (k : ℕ) (f : Bytes) → get_elem? arrived k ≡ some f → (i : ℕ) × (get_elem? fs i ≡ some f)
  pub all_come :
      (i : ℕ) (f : Bytes) → get_elem? fs i ≡ some f → (k : ℕ) × (get_elem? arrived k ≡ some f)

module _ (format : SerializationFormat) (qos stream_id : ℕ) (fs : List Bytes)
    (numbered : (i : ℕ) (f : Bytes)
      → get_elem? fs i ≡ some f
      → decode f ≡ some (header_at format qos stream_id (length fs) i)) where
  pick_arrived :
      (arrived : List Bytes) (k i : ℕ) (f : Bytes)
      → ((m : ℕ) (x : Bytes) → get_elem? arrived m ≡ some x → (j : ℕ) × (get_elem? fs j ≡ some x))
      → get_elem? arrived k ≡ some f
      → get_elem? fs i ≡ some f
      → pick i arrived ≡ some f
  unfolding pick
  pick_arrived [] k i f these here at_i = cc
  pick_arrived (x ∷ xs) zero i f these here at_i =
      let same : x ≡ f = cc in
      let head = numbered i f at_i in rw (pick, same, head, (==_iff i i).1 refl) refl
  pick_arrived (x ∷ xs) (suc k) i f these here at_i =
      let (j, at_j) = these 0 x refl in
      let head = numbered j x at_j in
      elim (Bool-cases (j == i)) [
        | inl e ↦
            let same : j ≡ i = (==_iff j i).0 e in
            let both = rw same at at_j in rw (pick, head, e) (cc (both, at_i))
        | inr e ↦
            rw (pick, head, e) (pick_arrived xs k i f (λ n y at_n. these (suc n) y at_n) here at_i)
      ]

  gather_arrived :
      (arrived gs : List Bytes) (i : ℕ)
      → ((k : ℕ) (f : Bytes) → get_elem? gs k ≡ some f → pick (i + k) arrived ≡ some f)
      → gather arrived (length gs) i ≡ some (flatten (map (drop frame_header_len) gs))
  unfolding gather flatten
  gather_arrived arrived [] i found = refl
  gather_arrived arrived (g ∷ gs) i found =
      let here : i + 0 ≡ i = omega arith in
      let first = rw here at (found 0 g refl) in
      let rest = gather_arrived arrived gs (i + 1) (λ k f at_k.
        let next : i + suc k ≡ i + 1 + k = omega arith in rw next at (found (suc k) f at_k)) in
      rw (gather, first, rest) refl

  pub reassemble_numbered :
      (payload : Bytes) (arrived : List Bytes)
      → flatten (map (drop frame_header_len) fs) ≡ payload
      → Arrives fs arrived
      → reassemble arrived ≡ some payload
  unfolding reassemble
  reassemble_numbered payload [] spells a = absurd (omega (arith, a.some_come))
  reassemble_numbered payload (x ∷ xs) spells a =
      let (j, at_j) = a.of_these 0 x refl in
      let head = numbered j x at_j in
      let found : (k : ℕ) (f : Bytes) → get_elem? fs k ≡ some f → pick (0 + k) (x ∷ xs) ≡ some f =
        λ k f at_k.
          let from_zero : 0 + k ≡ k = omega arith in
          rw from_zero (
            pick_arrived (x ∷ xs) (a.all_come k f at_k).0 k f a.of_these (a.all_come k f at_k).1
              at_k) in
      rw (reassemble, head) (gather_arrived (x ∷ xs) fs 0 found ∙ ap some spells)

-- The frames of an accepted payload, with a `qos` of 8 bits and a stream id of 64, give the payload back to a
-- consumer, whatever the order in which they come, and even if some come more than once.
pub reassemble-frames :
    (format : SerializationFormat) (qos stream_id : ℕ) (payload : Bytes) (max_len : ℕ)
    (fs arrived : List Bytes)
    → qos < 2 ^ 8
    → stream_id < 2 ^ 64
    → frames format qos stream_id payload max_len ≡ ok fs
    → Arrives fs arrived
    → reassemble arrived ≡ some payload
reassemble-frames format qos stream_id payload max_len fs arrived hq hs h a =
    reassemble_numbered format qos stream_id fs
      (λ i f. frames_numbered format qos stream_id payload max_len fs i f hq hs h) payload arrived
      (frames_carry format qos stream_id payload max_len fs h).0 a
