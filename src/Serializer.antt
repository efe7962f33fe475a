-- ===== src/Serializer.antt =====
-- crates/mqtt/v3/src/serializer.rs: serialization, then compression from a threshold on.
pub mod Reading
use blazebee.Base.{
  ℕ, Bool, true, false, ◌||◌, Result, ok, ◌>>=◌, map_err, ltb, if◌then◌else◌, length,
}
use blazebee.Base.Text.{Text}
use blazebee.Error.{TransferError, IoError}
use blazebee.Config.{
  SerializationFormat, json, message_pack, cbor, CompressionType, uncompressed, gzip, zstd,
  SerializationConfig,
}
use blazebee.Framer.{Bytes}

-- What the serializer takes from serde_json, rmp_serde, ciborium, flate2 and zstd, for the values
-- that are published. A serialization error is its message; `compress_gzip` is the encoder's
-- `write_all` and `finish`.
pub record Codecs : Type 1 where
  pub Value : Type 0
  pub write_json : Value → Result Text Bytes
  pub write_msgpack : Value → Result Text Bytes
  pub write_cbor : Value → Result Text Bytes
  pub compress_gzip : Bytes → Result IoError Bytes
  pub compress_zstd : ℕ → Bytes → Result IoError Bytes

abbrev pub zstd_level : ℕ
zstd_level = 3

pub record Serializer : Type 0 where
  pub format : SerializationFormat
  pub compression : CompressionType
  pub threshold : ℕ

-- Serializer::new
abbrev pub new : SerializationConfig → Serializer
new c = record {
  format = c.format;
  compression = c.compression;
  threshold = c.compression_threshold;
}

abbrev pub is_uncompressed : CompressionType → Bool
is_uncompressed uncompressed = true
is_uncompressed gzip = false
is_uncompressed zstd = false

module _ (codecs : Codecs) where
  open codecs use {Value, write_json, write_msgpack, write_cbor, compress_gzip, compress_zstd}

  unfoldable pub serialize : SerializationFormat → Value → Result TransferError Bytes
  serialize json value = map_err TransferError.serialization (write_json value)
  serialize message_pack value = map_err TransferError.serialization (write_msgpack value)
  serialize cbor value = map_err TransferError.serialization (write_cbor value)

  unfoldable pub compress : CompressionType → Bytes → Result TransferError Bytes
  compress uncompressed bytes = ok bytes
  compress gzip bytes = map_err TransferError.compression (compress_gzip bytes)
  compress zstd bytes = map_err TransferError.compression (compress_zstd zstd_level bytes)

  -- `capacity_hint` sizes the buffer and does not show in the result.
  unfoldable pub encode : Serializer → Value → Result TransferError Bytes
  unfolding serialize compress
  encode s value = do
    buf ← serialize s.format value
    if is_uncompressed s.compression || ltb (length buf) s.threshold
        then ok buf
        else compress s.compression buf
