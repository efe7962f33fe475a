-- ===== src/Framer/Header.antt =====
-- The frame header on the wire: `encode` and `decode` of crates/mqtt/v3/src/framer.rs.
use blazebee.Base.{
  ℕ, zero, suc, ◌+◌, ◌*◌, ◌/◌, ◌%◌, ◌^◌, ◌<◌, ◌≡◌, refl, ◌∙◌, Option, some, none, [], ◌∷◌, ◌++◌,
  arith, length, drop, All, length-append, append_assoc, append-nil, false,
}
use blazebee.Config.{SerializationFormat, json, message_pack, cbor}
use blazebee.Framer.{
  Bytes, FrameHeader, encode, decode, to_be_bytes, from_be_bytes, be_value, format_code,
  format_of_code, byte_at, slice, header_with, is_foreign,
}
use native.Mathlib.Nat.{pow-suc, zero-add, add-zero}

-- A header whose fields fit their integer types.
pub record IsHeader (h : FrameHeader) : Type 0 where
  pub qos_fits : h.qos < 2 ^ 8
  pub stream_fits : h.stream_id < 2 ^ 64
  pub index_fits : h.frame_index < 2 ^ 32
  pub total_fits : h.frame_total < 2 ^ 32

pub length-to_be_bytes : (k n : ℕ) → length (to_be_bytes k n) ≡ k
unfolding to_be_bytes
length-to_be_bytes zero n = refl
length-to_be_bytes (suc k) n =
    omega (
      arith,
      length-append (to_be_bytes k (n / 256)) (n % 256 ∷ []),
      length-to_be_bytes k (n / 256),
    )

be_value-append :
    (xs ys : Bytes) (acc : ℕ) → be_value acc (xs ++ ys) ≡ be_value (be_value acc xs) ys
unfolding be_value
be_value-append [] ys acc = refl
be_value-append (x ∷ xs) ys acc = be_value-append xs ys (acc * 256 + x)

pub from_be_bytes-to_be_bytes : (k n : ℕ) → n < 256 ^ k → from_be_bytes (to_be_bytes k n) ≡ n
unfolding to_be_bytes be_value
from_be_bytes-to_be_bytes zero n h = omega arith
from_be_bytes-to_be_bytes (suc k) n h =
    be_value-append (to_be_bytes k (n / 256)) (n % 256 ∷ []) 0
    ∙ omega (arith, from_be_bytes-to_be_bytes k (n / 256) (omega (arith, pow-suc 256 k)))

format_of_code-format_code : (f : SerializationFormat) → format_of_code (format_code f) ≡ some f
unfolding format_of_code format_code
format_of_code-format_code json = refl
format_of_code-format_code message_pack = refl
format_of_code-format_code cbor = refl

-- A header whose fields fit their widths is decoded from its encoding, whatever chunk follows.
pub decode-encode :
    (h : FrameHeader) (chunk : Bytes) → IsHeader h → decode (encode h ++ chunk) ≡ some h
unfolding decode encode
decode-encode h chunk v = ground (
  arith,
  format_of_code-format_code h.format,
  from_be_bytes-to_be_bytes 8 h.stream_id v.stream_fits,
  from_be_bytes-to_be_bytes 4 h.frame_index v.index_fits,
  from_be_bytes-to_be_bytes 4 h.frame_total v.total_fits,
)

abbrev pub IsByte : ℕ → Type 0
IsByte b = b < 256

to_be_bytes-be_value :
    (k acc : ℕ) (bs : Bytes)
    → All IsByte bs
    → to_be_bytes (length bs + k) (be_value acc bs) ≡ to_be_bytes k acc ++ bs
unfolding to_be_bytes be_value
to_be_bytes-be_value k acc [] h = rw (append-nil, zero-add)
to_be_bytes-be_value k acc (b ∷ bs) h =
    let shift : suc (length bs) + k ≡ length bs + suc k = omega arith in
    rw shift (to_be_bytes-be_value (suc k) (acc * 256 + b) bs h.1 ∙ push)
  where
    push : to_be_bytes (suc k) (acc * 256 + b) ++ bs ≡ to_be_bytes k acc ++ b ∷ bs
    push =
        let hi : (acc * 256 + b) / 256 ≡ acc = omega arith in
        let lo : (acc * 256 + b) % 256 ≡ b = omega arith in
        rw (hi, lo) (append_assoc (to_be_bytes k acc) (b ∷ []) bs)

pub to_be_bytes-from_be_bytes :
    (bs : Bytes) → All IsByte bs → to_be_bytes (length bs) (from_be_bytes bs) ≡ bs
unfolding to_be_bytes
to_be_bytes-from_be_bytes bs h = rw add-zero at (to_be_bytes-be_value 0 0 bs h)

format_code-format_of_code :
    (n : ℕ) {f : SerializationFormat} → format_of_code n ≡ some f → format_code f ≡ n
unfolding format_of_code format_code
format_code-format_of_code zero h = ground arith
format_code-format_of_code (suc zero) h = ground arith
format_code-format_of_code (suc (suc zero)) h = ground arith
format_code-format_of_code (suc (suc (suc n))) h = cc

-- What the header's bytes after the version say.
header_with_fields :
    (bytes : Bytes) (o : Option SerializationFormat) (h : FrameHeader)
    → header_with bytes o ≡ some h
    → (o ≡ some h.format)
      × (h.qos ≡ byte_at bytes 4)
      × (h.stream_id ≡ from_be_bytes (slice 5 13 bytes))
      × (h.frame_index ≡ from_be_bytes (slice 13 17 bytes))
      × (h.frame_total ≡ from_be_bytes (slice 17 21 bytes))
header_with_fields bytes none h q = cc
header_with_fields bytes (some f) h q = ground arith

-- Every byte string that `decode` accepts is the encoding of the header that it returns, followed by
-- the chunk; no two headers share one.
pub encode-decode :
    (bytes : Bytes) (h : FrameHeader)
    → All IsByte bytes
    → decode bytes ≡ some h
    → encode h ++ drop 21 bytes ≡ bytes
unfolding decode encode
encode-decode
      (a ∷ b ∷ c ∷ d ∷ e ∷ f1 ∷ f2 ∷ f3 ∷ f4 ∷ f5 ∷ f6 ∷ f7 ∷ f8 ∷ g1 ∷ g2 ∷ g3 ∷ g4 ∷ h1 ∷ h2 ∷ h3
        ∷ h4 ∷ rest)
      h v q =
    let accepted : is_foreign bytes ≡ false = ground arith in
    let fields = header_with_fields bytes (format_of_code d) h (ground (arith, q, accepted)) in
    ground (
      arith,
      q,
      fields,
      format_code-format_of_code d,
      to_be_bytes-from_be_bytes stream,
      to_be_bytes-from_be_bytes index,
      to_be_bytes-from_be_bytes total,
    )
  where
    bytes : Bytes
    bytes =
        a ∷ b ∷ c ∷ d ∷ e ∷ f1 ∷ f2 ∷ f3 ∷ f4 ∷ f5 ∷ f6 ∷ f7 ∷ f8 ∷ g1 ∷ g2 ∷ g3 ∷ g4 ∷ h1 ∷ h2 ∷ h3
        ∷ h4 ∷ rest

    stream : Bytes
    stream = f1 ∷ f2 ∷ f3 ∷ f4 ∷ f5 ∷ f6 ∷ f7 ∷ f8 ∷ []

    index : Bytes
    index = g1 ∷ g2 ∷ g3 ∷ g4 ∷ []

    total : Bytes
    total = h1 ∷ h2 ∷ h3 ∷ h4 ∷ []
encode-decode _ h bs q = cc
