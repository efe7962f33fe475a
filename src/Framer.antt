-- ===== src/Framer.antt =====
-- crates/mqtt/v3/src/framer.rs: the frame header and the splitting of a payload. A byte slice is a
-- list of numbers below 256, `usize` has 64 bits.
pub mod Header
pub mod Chunks
pub mod Split
pub mod Reassembly
use blazebee.Base.{
  ℕ, zero, suc, ◌+◌, ◌-◌, ◌*◌, ◌/◌, ◌%◌, ◌^◌, Bool, not, ◌||◌, Option, none, some, List, [], ◌∷◌,
  ◌++◌, length, take, drop, ltb, ◌==◌, if◌then◌else◌, Result, ok, err, ◌>>=◌, ok_or,
}
use blazebee.Base.Text.{Text, codes, text_eq, is_empty}
use blazebee.Error.{TransferError}
use blazebee.Config.{SerializationFormat, json, message_pack, cbor}

abbrev pub Bytes : Type 0
Bytes = List ℕ

abbrev pub frame_magic : Bytes
frame_magic = b'F' ∷ b'R' ∷ []

abbrev pub frame_version : ℕ
frame_version = 1

abbrev pub frame_header_len : ℕ
frame_header_len = 21

pub record FrameHeader : Type 0 where
  pub format : SerializationFormat
  pub qos : ℕ
  pub stream_id : ℕ
  pub frame_index : ℕ
  pub frame_total : ℕ

-- `SerializationFormat as u8`, and the match of `decode`.
unfoldable pub format_code : SerializationFormat → ℕ
format_code json = 0
format_code message_pack = 1
format_code cbor = 2

unfoldable pub format_of_code : ℕ → Option SerializationFormat
format_of_code zero = some json
format_of_code (suc zero) = some message_pack
format_of_code (suc (suc zero)) = some cbor
format_of_code (suc (suc (suc n))) = none

-- `to_be_bytes` and `from_be_bytes` of an unsigned integer of `k` bytes.
unfoldable pub to_be_bytes : ℕ → ℕ → Bytes
to_be_bytes zero n = []
to_be_bytes (suc k) n = to_be_bytes k (n / 256) ++ (n % 256) ∷ []

pub be_value : ℕ → Bytes → ℕ
be_value acc [] = acc
be_value acc (b ∷ bs) = be_value (acc * 256 + b) bs

abbrev pub from_be_bytes : Bytes → ℕ
from_be_bytes = be_value 0

unfoldable pub encode : FrameHeader → Bytes
unfolding to_be_bytes format_code
encode h =
    frame_magic
    ++ (frame_version ∷ format_code h.format ∷ h.qos ∷ to_be_bytes 8 h.stream_id
        ++ (to_be_bytes 4 h.frame_index ++ to_be_bytes 4 h.frame_total))

-- `&bytes[from..to]`, and `bytes[i]` where `i` is in range.
abbrev pub slice : ℕ → ℕ → Bytes → Bytes
slice from to bytes = take (to - from) (drop from bytes)

abbrev pub byte_at : Bytes → ℕ → ℕ
byte_at [] i = 0
byte_at (b ∷ bs) zero = b
byte_at (b ∷ bs) (suc i) = byte_at bs i

-- The guard of `decode`.
abbrev is_foreign : Bytes → Bool
is_foreign bytes =
    ltb (length bytes) frame_header_len
    || not (text_eq (take 2 bytes) frame_magic)
    || not (byte_at bytes 2 == frame_version)

abbrev header_with : Bytes → Option SerializationFormat → Option FrameHeader
header_with bytes none = none
header_with bytes (some format) = some (record {
  format = format;
  qos = byte_at bytes 4;
  stream_id = from_be_bytes (slice 5 13 bytes);
  frame_index = from_be_bytes (slice 13 17 bytes);
  frame_total = from_be_bytes (slice 17 21 bytes);
})

unfoldable pub decode : Bytes → Option FrameHeader
unfolding format_of_code be_value text_eq
decode bytes =
    if is_foreign bytes then none else header_with bytes (format_of_code (byte_at bytes 3))

-- `slice::chunks(n)`, for `n` at least 1, on fuel.
unfoldable pub chunks : ℕ → ℕ → Bytes → List Bytes
chunks zero n bytes = []
chunks (suc fuel) n [] = []
chunks (suc fuel) n (b ∷ bs) = take n (b ∷ bs) ∷ chunks fuel n (drop n (b ∷ bs))

-- `usize::div_ceil`.
abbrev pub div_ceil : ℕ → ℕ → ℕ
div_ceil a b = (a + b - 1) / b

abbrev pub u32_max : ℕ
u32_max = 2 ^ 32 - 1

abbrev no_room : Text
no_room = codes "max_packet_size leaves no room for payload after the 21-byte frame header"

abbrev too_many : Text
too_many = codes "payload needs more than u32::MAX frames"

-- `checked_sub` and `filter`.
abbrev chunk_max : Bytes → ℕ → Option ℕ
chunk_max payload max_frame_len =
    if ltb max_frame_len frame_header_len
    then none
    else if ltb 0 (max_frame_len - frame_header_len) || is_empty payload
    then some (max_frame_len - frame_header_len)
    else none

abbrev frame_count : Bytes → ℕ → ℕ
frame_count payload n = if is_empty payload then 1 else div_ceil (length payload) n

abbrev chunks_of : Bytes → ℕ → List Bytes
chunks_of payload n = if is_empty payload then [] ∷ [] else chunks (length payload) n payload

module _ (format : SerializationFormat) (qos stream_id : ℕ) where
  -- One round of `chunks.enumerate().map(..)`; `index as u32` wraps.
  unfoldable pub frame : ℕ → ℕ → Bytes → Bytes
  frame total index chunk =
      encode (record {
        format = format;
        qos = qos;
        stream_id = stream_id;
        frame_index = index % 2 ^ 32;
        frame_total = total;
      })
      ++ chunk

  unfoldable pub enumerate : ℕ → ℕ → List Bytes → List Bytes
  unfolding frame
  enumerate total index [] = []
  enumerate total index (chunk ∷ rest) = frame total index chunk ∷ enumerate total (index + 1) rest

  unfoldable pub frames : Bytes → ℕ → Result TransferError (List Bytes)
  unfolding enumerate chunks
  frames payload max_frame_len = do
    n ← ok_or (chunk_max payload max_frame_len) (TransferError.framing no_room)
    let total = frame_count payload n
    if ltb u32_max total
        then err (TransferError.framing too_many)
        else ok (enumerate total 0 (chunks_of payload n))
