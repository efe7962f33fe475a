-- ===== src/Serializer/Reading.antt =====
-- What a consumer can read from what crates/mqtt/v3/src/serializer.rs writes: it tries to decompress, and then
-- deserializes.
use blazebee.Base.{
  ◌≡◌, refl, false, Option, none, some, Result, ok, Result-cases, Bool-cases, inl, inr, ◌||◌, ltb,
  length, arith,
}
use blazebee.Base.Text.{Text}
use blazebee.Config.{
  SerializationFormat, json, message_pack, cbor, CompressionType, uncompressed, gzip, zstd,
}
use blazebee.Framer.{Bytes}
use blazebee.Serializer.{
  Codecs, Serializer, serialize, compress, encode, is_uncompressed, zstd_level,
}

-- The consumer's halves of the formats; a decompressor refuses what is not in its format.
pub record Reader (Value : Type 0) : Type 0 where
  pub read : SerializationFormat → Bytes → Option Value
  pub unpack_gzip : Bytes → Option Bytes
  pub unpack_zstd : Bytes → Option Bytes

abbrev pub written : (codecs : Codecs) → SerializationFormat → codecs.Value → Result Text Bytes
written codecs json v = codecs.write_json v
written codecs message_pack v = codecs.write_msgpack v
written codecs cbor v = codecs.write_cbor v

-- The formats: what is written is read back, what is compressed is unpacked, and no serialized sample starts as a
-- compressed stream does.
pub record Inverts (codecs : Codecs) (reader : Reader codecs.Value) : Type 0 where
  pub reads :
      (f : SerializationFormat) (v : codecs.Value) (b : Bytes)
      → written codecs f v ≡ ok b
      → reader.read f b ≡ some v
  pub gzips : (b z : Bytes) → codecs.compress_gzip b ≡ ok z → reader.unpack_gzip z ≡ some b
  pub zstds :
      (b z : Bytes) → codecs.compress_zstd zstd_level b ≡ ok z → reader.unpack_zstd z ≡ some b
  pub not_packed :
      (f : SerializationFormat) (v : codecs.Value) (b : Bytes)
      → written codecs f v ≡ ok b
      → (reader.unpack_gzip b ≡ none) × (reader.unpack_zstd b ≡ none)

module _ {Value : Type 0} (reader : Reader Value) where
  abbrev pub unpack : CompressionType → Bytes → Option Bytes
  unpack uncompressed b = none
  unpack gzip b = reader.unpack_gzip b
  unpack zstd b = reader.unpack_zstd b

  unfoldable pub receive : Serializer → Bytes → Option Value
  receive s b = elim (unpack s.compression b) [
    | none ↦ reader.read s.format b
    | some inner ↦ reader.read s.format inner
  ]

module _ (codecs : Codecs) (reader : Reader codecs.Value) (law : Inverts codecs reader) where
  serialize-written :
      (f : SerializationFormat) (v : codecs.Value) (b : Bytes)
      → serialize codecs f v ≡ ok b
      → written codecs f v ≡ ok b
  unfolding serialize
  serialize-written json v b h = ground (arith, h)
  serialize-written message_pack v b h = ground (arith, h)
  serialize-written cbor v b h = ground (arith, h)

  receive_plain :
      (s : Serializer) (v : codecs.Value) (b : Bytes)
      → written codecs s.format v ≡ ok b
      → receive reader s b ≡ some v
  unfolding receive
  receive_plain s v b h = go s.compression refl
    where
      go : (c : CompressionType) → s.compression ≡ c → receive reader s b ≡ some v
      go uncompressed e = rw (receive, e) (law.reads s.format v b h)
      go gzip e = rw (receive, e, (law.not_packed s.format v b h).0) (law.reads s.format v b h)
      go zstd e = rw (receive, e, (law.not_packed s.format v b h).1) (law.reads s.format v b h)

  receive_packed :
      (s : Serializer) (v : codecs.Value) (b z : Bytes)
      → written codecs s.format v ≡ ok b
      → compress codecs s.compression b ≡ ok z
      → is_uncompressed s.compression ≡ false
      → receive reader s z ≡ some v
  unfolding receive compress
  receive_packed s v b z h packs on = go s.compression refl
    where
      go : (c : CompressionType) → s.compression ≡ c → receive reader s z ≡ some v
      go uncompressed e = cc (rw e at on)
      go gzip e =
          let back = law.gzips b z (ground (arith, rw e at packs)) in
          rw (receive, e, back) (law.reads s.format v b h)
      go zstd e =
          let back = law.zstds b z (ground (arith, rw e at packs)) in
          rw (receive, e, back) (law.reads s.format v b h)

  -- Whatever the format, the compression and the threshold, a consumer that knows them reads an encoded value back.
  pub receive-encode :
      (s : Serializer) (v : codecs.Value) (b : Bytes)
      → encode codecs s v ≡ ok b
      → receive reader s b ≡ some v
  unfolding encode
  receive-encode s v b h = elim (Result-cases (serialize codecs s.format v)) [
    | inr (e, bad) ↦ cc (rw (encode, bad) at h)
    | inl (buf, good) ↦
        let wrote = serialize-written s.format v buf good in
        elim (Bool-cases (is_uncompressed s.compression || ltb (length buf) s.threshold)) [
          | inl plain ↦
              let same : buf ≡ b = cc (rw (encode, good, plain) at h) in
              receive_plain s v b (rw same at wrote)
          | inr packed ↦
              receive_packed s v buf b wrote (rw (encode, good, packed) at h)
                (ground (arith, packed))
        ]
  ]
