-- ===== src/Framer/Chunks.antt =====
-- How crates/mqtt/v3/src/framer.rs cuts a payload into chunks.
use blazebee.Base.{
  ℕ, zero, suc, ◌+◌, ◌-◌, ◌<◌, ◌≤◌, ◌≡◌, refl, sym, some, [], ◌∷◌, arith, length, drop, All, inl,
  inr, take-append-drop, length-take, length-drop, ◌⊎◌,
}
use mathlib.Core.List.{flatten}
use native.Mathlib.Nat.{div-eq_of_lt, div-eq-sub-div}
use blazebee.Framer.{
  Bytes, frame_header_len, chunks, div_ceil, chunk_max, frame_count, chunks_of, u32_max,
}

module _ (n : ℕ) (pos : 0 < n) where
  drop_shorter :
      (fuel b : ℕ) (bs : Bytes) → length (b ∷ bs) ≤ suc fuel → length (drop n (b ∷ bs)) ≤ fuel
  drop_shorter fuel b bs h = omega (arith, length-drop n (b ∷ bs))

  flatten-chunks :
      (fuel : ℕ) (bytes : Bytes) → length bytes ≤ fuel → flatten (chunks fuel n bytes) ≡ bytes
  unfolding chunks flatten
  flatten-chunks zero [] h = refl
  flatten-chunks zero (b ∷ bs) h = absurd (omega arith)
  flatten-chunks (suc fuel) [] h = refl
  flatten-chunks (suc fuel) (b ∷ bs) h =
      rw (flatten-chunks fuel (drop n (b ∷ bs)) (drop_shorter fuel b bs h))
        (take-append-drop n (b ∷ bs))

  chunks_fit : (fuel : ℕ) (bytes : Bytes) → All (λ c. length c ≤ n) (chunks fuel n bytes)
  unfolding chunks
  chunks_fit zero bytes = tt
  chunks_fit (suc fuel) [] = tt
  chunks_fit (suc fuel) (b ∷ bs) =
      (omega (arith, length-take n (b ∷ bs)), chunks_fit fuel (drop n (b ∷ bs)))

  length-chunks :
      (fuel : ℕ) (bytes : Bytes)
      → length bytes ≤ fuel
      → length (chunks fuel n bytes) ≡ div_ceil (length bytes) n
  unfolding chunks
  length-chunks zero [] h = sym (div-eq_of_lt (omega arith))
  length-chunks zero (b ∷ bs) h = absurd (omega arith)
  length-chunks (suc fuel) [] h = sym (div-eq_of_lt (omega arith))
  length-chunks (suc fuel) (b ∷ bs) h = grind (
    arith,
    length-chunks fuel (drop n (b ∷ bs)) (drop_shorter fuel b bs h),
    length-drop n (b ∷ bs),
  )

-- The chunk size that `frames` takes, with the conditions under which it goes on.
pub record Fits (payload : Bytes) (max_len n : ℕ) : Type 0 where
  pub header_fits : frame_header_len + n ≡ max_len
  pub has_room : (payload ≡ []) ⊎ (0 < n)
  pub count_fits : frame_count payload n ≤ u32_max

pub chunk_max-eq_some :
    (payload : Bytes) (max_len n : ℕ)
    → chunk_max payload max_len ≡ some n
    → (frame_header_len + n ≡ max_len) × ((payload ≡ []) ⊎ (0 < n))
chunk_max-eq_some [] max_len n h = ground arith
chunk_max-eq_some (b ∷ bs) max_len n h = ground arith

pub flatten-chunks_of :
    (payload : Bytes) (n : ℕ) → (payload ≡ []) ⊎ (0 < n) → flatten (chunks_of payload n) ≡ payload
unfolding flatten
flatten-chunks_of [] n room = refl
flatten-chunks_of (b ∷ bs) n (inl e) = cc
flatten-chunks_of (b ∷ bs) n (inr pos) =
    flatten-chunks n pos (length (b ∷ bs)) (b ∷ bs) (omega arith)

pub chunks_of_fit :
    (payload : Bytes) (n : ℕ)
    → (payload ≡ []) ⊎ (0 < n)
    → All (λ c. length c ≤ n) (chunks_of payload n)
chunks_of_fit [] n room = (omega arith, tt)
chunks_of_fit (b ∷ bs) n (inl e) = cc
chunks_of_fit (b ∷ bs) n (inr pos) = chunks_fit n pos (length (b ∷ bs)) (b ∷ bs)

pub length-chunks_of :
    (payload : Bytes) (n : ℕ)
    → (payload ≡ []) ⊎ (0 < n)
    → length (chunks_of payload n) ≡ frame_count payload n
length-chunks_of [] n room = refl
length-chunks_of (b ∷ bs) n (inl e) = cc
length-chunks_of (b ∷ bs) n (inr pos) = length-chunks n pos (length (b ∷ bs)) (b ∷ bs) (omega arith)

large : (b : ℕ) (bs : Bytes) (n : ℕ) → n ≤ length (b ∷ bs) + n - 1
large b bs n = omega arith

pub frame_count-pos :
    (payload : Bytes) (n : ℕ) → (payload ≡ []) ⊎ (0 < n) → 0 < frame_count payload n
frame_count-pos [] n room = omega arith
frame_count-pos (b ∷ bs) n (inl e) = cc
frame_count-pos (b ∷ bs) n (inr pos) = omega (arith, div-eq-sub-div pos (large b bs n))
