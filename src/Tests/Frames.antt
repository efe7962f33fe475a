-- ===== src/Tests/Frames.antt =====
-- Frames (crates/mqtt/v3/src/framer.rs) of a payload of seven bytes.
use blazebee.Base.{
  ◌≤◌, ◌<◌, ◌≡◌, ◌↔◌, refl, List, [], ◌∷◌, ◌++◌, map, length, drop, some, ok, arith, All,
}
use blazebee.Base.Text.{text_eq}
use blazebee.Config.{json, cbor}
use blazebee.Framer.{
  Bytes, FrameHeader, encode, decode, frames, frame, chunks, enumerate, frame_header_len, u32_max,
  to_be_bytes, format_code, format_of_code,
}
use blazebee.Framer.Header.{decode-encode, encode-decode}
use blazebee.Framer.Split.{CanFrame, frames_carry, frames_total}
use mathlib.Core.List.{flatten}

abbrev header : FrameHeader
header = record { format = cbor; qos = 2; stream_id = 70_000; frame_index = 1; frame_total = 3 }

decode-encode_example : decode (encode header ++ (7 ∷ 8 ∷ [])) ≡ some header
decode-encode_example = decode-encode header (7 ∷ 8 ∷ []) (record {
  qos_fits = omega arith;
  stream_fits = omega arith;
  index_fits = omega arith;
  total_fits = omega arith;
})

abbrev wire : Bytes
wire =
    b'F' ∷ b'R' ∷ 1 ∷ 2 ∷ 2 ∷ 0 ∷ 0 ∷ 0 ∷ 0 ∷ 0 ∷ 1 ∷ 17 ∷ 112 ∷ 0 ∷ 0 ∷ 0 ∷ 1 ∷ 0 ∷ 0 ∷ 0 ∷ 3 ∷ 9
    ∷ []

wire-header : decode wire ≡ some header
unfolding decode format_of_code text_eq
wire-header = refl

encode-decode_example : encode header ++ drop 21 wire ≡ wire
encode-decode_example = encode-decode wire header (omega arith) wire-header

abbrev payload : Bytes
payload = 1 ∷ 2 ∷ 3 ∷ 4 ∷ 5 ∷ 6 ∷ 7 ∷ []

-- Frames of at most 24 bytes, with 3 bytes of payload each.
abbrev parts : List Bytes
unfolding enumerate frame encode to_be_bytes format_code chunks
parts = enumerate json 1 5 3 0 (chunks 7 3 payload)

cut : frames json 1 5 payload 24 ≡ ok parts
unfolding frames enumerate chunks parts
cut = refl

frames_carry_example :
    (flatten (map (drop frame_header_len) parts) ≡ payload)
    × All (λ f. length f ≤ 24) parts
    × (0 < length parts)
    × (length parts ≤ u32_max)
frames_carry_example = frames_carry json 1 5 payload 24 parts cut

frames_total_example :
    CanFrame payload 24 ↔ ((fs : List Bytes) × (frames json 1 5 payload 24 ≡ ok fs))
frames_total_example = frames_total json 1 5 payload 24
