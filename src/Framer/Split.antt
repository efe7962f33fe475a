-- ===== src/Framer/Split.antt =====
-- The frames of a payload: `frames` of crates/mqtt/v3/src/framer.rs.
use blazebee.Base.{
  ℕ, zero, suc, ◌+◌, ◌-◌, ◌*◌, ◌%◌, ◌^◌, ◌<◌, ◌≤◌, ◌≡◌, refl, sym, ap, ◌∙◌, Option-cases, some,
  List, [], ◌∷◌, arith, length, drop, All, inl, inr, map, get_elem?, ok, ◌⊎◌, ◌↔◌,
}
use mathlib.Core.List.{flatten}
use native.Mathlib.Nat.{div-lt_iff_lt-mul}
use blazebee.Config.{SerializationFormat}
use blazebee.Framer.{
  Bytes, FrameHeader, encode, decode, frame_header_len, frames, frame, enumerate, chunk_max,
  frame_count, chunks_of, u32_max,
}
use blazebee.Framer.Header.{decode-encode}
use blazebee.Framer.Chunks.{
  Fits, chunk_max-eq_some, flatten-chunks_of, chunks_of_fit, length-chunks_of, frame_count-pos,
}

module _ (format : SerializationFormat) (qos stream_id : ℕ) where
  frames-eq_ok :
      (payload : Bytes) (max_len : ℕ) (fs : List Bytes)
      → frames format qos stream_id payload max_len ≡ ok fs
      → (n : ℕ) × Fits payload max_len n
        × (fs ≡ enumerate format qos stream_id (frame_count payload n) 0 (chunks_of payload n))
  unfolding frames
  frames-eq_ok payload max_len fs h = elim (Option-cases (chunk_max payload max_len)) [
    | inl e ↦ cc (rw e at h)
    | inr (n, e) ↦
        let (fits, room) = chunk_max-eq_some payload max_len n e in
        (
          n,
          record { header_fits = fits; has_room = room; count_fits = ground (arith, e) },
          ground (arith, e),
        )
  ]

  length-enumerate :
      (total i : ℕ) (cs : List Bytes)
      → length (enumerate format qos stream_id total i cs) ≡ length cs
  unfolding enumerate
  length-enumerate total i [] = refl
  length-enumerate total i (c ∷ cs) = ap suc (length-enumerate total (i + 1) cs)

  chunks-enumerate :
      (total i : ℕ) (cs : List Bytes)
      → map (drop 21) (enumerate format qos stream_id total i cs) ≡ cs
  unfolding enumerate encode
  chunks-enumerate total i [] = refl
  chunks-enumerate total i (c ∷ cs) = ap (◌∷◌ c) (chunks-enumerate total (i + 1) cs)

  enumerate_fit :
      (n total i : ℕ) (cs : List Bytes)
      → All (λ c. length c ≤ n) cs
      → All (λ f. length f ≤ 21 + n) (enumerate format qos stream_id total i cs)
  unfolding enumerate encode
  enumerate_fit n total i [] h = tt
  enumerate_fit n total i (c ∷ cs) h = (omega arith, enumerate_fit n total (i + 1) cs h.1)

  -- The header of the frame at a position.
  abbrev pub header_at : ℕ → ℕ → FrameHeader
  header_at total index = record {
    format = format;
    qos = qos;
    stream_id = stream_id;
    frame_index = index;
    frame_total = total;
  }

  decode-enumerate :
      (total i j : ℕ) (cs : List Bytes) (f : Bytes)
      → qos < 2 ^ 8
      → stream_id < 2 ^ 64
      → total < 2 ^ 32
      → i + length cs ≤ 2 ^ 32
      → get_elem? (enumerate format qos stream_id total i cs) j ≡ some f
      → decode f ≡ some (header_at total (i + j))
  unfolding enumerate
  decode-enumerate total i j [] f hq hs ht hi h = cc
  decode-enumerate total i zero (c ∷ cs) f hq hs ht hi h =
      let index : i % 2 ^ 32 ≡ i + 0 = omega arith in
      let e : frame format qos stream_id total i c ≡ f = cc in
      rw (← e) (rw index (decode-encode (header_at total (i + 0)) c (omega arith)))
  decode-enumerate total i (suc j) (c ∷ cs) f hq hs ht hi h =
      let next : i + suc j ≡ i + 1 + j = omega arith in
      rw next (decode-enumerate total (i + 1) j cs f hq hs ht (omega arith) h)

  -- Accepted frames carry the payload: without their headers they spell it, and none is longer than
  -- the limit, and there are between 1 and `u32::MAX` of them.
  pub frames_carry :
      (payload : Bytes) (max_len : ℕ) (fs : List Bytes)
      → frames format qos stream_id payload max_len ≡ ok fs
      → (flatten (map (drop frame_header_len) fs) ≡ payload)
        × All (λ f. length f ≤ max_len) fs
        × (0 < length fs)
        × (length fs ≤ u32_max)
  frames_carry payload max_len fs h =
      let (n, fits, e) = frames-eq_ok payload max_len fs h in
      let cs = chunks_of payload n in
      let total = frame_count payload n in
      let count = length-enumerate total 0 cs ∙ length-chunks_of payload n fits.has_room in
      rw e (
        ap flatten (chunks-enumerate total 0 cs) ∙ flatten-chunks_of payload n fits.has_room,
        rw (sym fits.header_fits)
            (enumerate_fit n total 0 cs (chunks_of_fit payload n fits.has_room)),
        omega (arith, count, frame_count-pos payload n fits.has_room),
        omega (arith, count, fits.count_fits),
      )

  -- For a `qos` of 8 bits and a stream id of 64, the header of the accepted frame at position `i` says `i`, the
  -- number of frames, and what the caller gave.
  pub frames_numbered :
      (payload : Bytes) (max_len : ℕ) (fs : List Bytes) (i : ℕ) (f : Bytes)
      → qos < 2 ^ 8
      → stream_id < 2 ^ 64
      → frames format qos stream_id payload max_len ≡ ok fs
      → get_elem? fs i ≡ some f
      → decode f ≡ some (header_at (length fs) i)
  frames_numbered payload max_len fs i f hq hs h at_i =
      let (n, fits, e) = frames-eq_ok payload max_len fs h in
      let cs = chunks_of payload n in
      let total = frame_count payload n in
      let chunk_count = length-chunks_of payload n fits.has_room in
      let count : length fs ≡ total = rw e (length-enumerate total 0 cs ∙ chunk_count) in
      let found =
        decode-enumerate total 0 i cs f hq hs (omega (arith, fits.count_fits))
          (omega (arith, fits.count_fits, chunk_count)) (rw e at at_i) in
      let from_zero : 0 + i ≡ i = omega arith in rw (count, ← from_zero) found

-- When a payload can be framed at all: the header fits, and the chunks are not too many.
pub record CanFrame (payload : Bytes) (max_len : ℕ) : Type 0 where
  pub header_fits : frame_header_len ≤ max_len
  pub payload_fits : length payload ≤ (max_len - frame_header_len) * u32_max

chunk_max-CanFrame :
    (payload : Bytes) (max_len : ℕ)
    → CanFrame payload max_len
    → chunk_max payload max_len ≡ some (max_len - frame_header_len)
chunk_max-CanFrame [] max_len c = ground arith
chunk_max-CanFrame (b ∷ bs) max_len c = grind (arith, c.header_fits, c.payload_fits)

frame_count_bound :
    (payload : Bytes) (n : ℕ)
    → (payload ≡ []) ⊎ (0 < n)
    → (frame_count payload n ≤ u32_max) ↔ (length payload ≤ n * u32_max)
frame_count_bound [] n room = ((λ _. omega arith), (λ _. omega arith))
frame_count_bound (b ∷ bs) n (inl e) = cc
frame_count_bound (b ∷ bs) n (inr pos) =
    let L = length (b ∷ bs) in
    let bound = div-lt_iff_lt-mul {x = L + n - 1} {y = 2 ^ 32} pos in
    (
      (λ h. omega (arith, bound.0 (omega (arith, h)))),
      (λ h. omega (arith, bound.1 (omega (arith, h)))),
    )

module _ (format : SerializationFormat) (qos stream_id : ℕ) where
  frames_accept :
      (payload : Bytes) (max_len : ℕ)
      → CanFrame payload max_len
      → (fs : List Bytes) × (frames format qos stream_id payload max_len ≡ ok fs)
  unfolding frames
  frames_accept payload max_len c =
      let n = max_len - frame_header_len in
      let e = chunk_max-CanFrame payload max_len c in
      let room = (chunk_max-eq_some payload max_len n e).1 in
      let fits = (frame_count_bound payload n room).1 c.payload_fits in
      (
        enumerate format qos stream_id (frame_count payload n) 0 (chunks_of payload n),
        ground (arith, e, fits),
      )

  -- `frames` succeeds exactly on the payloads that can be framed: any other is refused.
  pub frames_total :
      (payload : Bytes) (max_len : ℕ)
      → CanFrame payload max_len
        ↔ ((fs : List Bytes) × (frames format qos stream_id payload max_len ≡ ok fs))
  frames_total payload max_len = (frames_accept payload max_len, back)
    where
      back :
          ((fs : List Bytes) × (frames format qos stream_id payload max_len ≡ ok fs))
          → CanFrame payload max_len
      back (fs, h) =
          let (n, fits, e) = frames-eq_ok format qos stream_id payload max_len fs h in
          let small = (frame_count_bound payload n fits.has_room).0 fits.count_fits in
          let same : max_len - frame_header_len ≡ n = omega (arith, fits.header_fits) in
          record { header_fits = omega (arith, fits.header_fits); payload_fits = rw same small }
