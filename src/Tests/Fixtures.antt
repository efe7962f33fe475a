-- ===== src/Tests/Fixtures.antt =====
-- A bounded queue in place of rumqttc's client, and serializers that write a value's bytes.
use blazebee.Base.{
  ℕ, zero, suc, ◌+◌, ◌≡◌, ◌<◌, ◌≤◌, refl, true, false, List, [], ◌∷◌, ◌++◌, Result, ok, err, arith,
}
use blazebee.Base.Text.{codes}
use blazebee.Error.{ClientError}
use blazebee.Config.{Config, default_config, EndpointMetadata}
use blazebee.Serializer.{Codecs}
use blazebee.Publisher.{Client, Behaves, Request, Publisher}
use blazebee.Publisher.Room.{Room}
use blazebee.Publisher

pub record Bounded : Type 0 where
  pub room : ℕ
  pub sent : List Request

abbrev offer : ℕ → List Request → Request → Bounded × Result ClientError (Unit {0})
offer zero sent r = (record { room = zero; sent = sent }, err ClientError.try_request)
offer (suc n) sent r = (record { room = n; sent = sent ++ (r ∷ []) }, ok tt)

abbrev pub client : Client
client = record {
  Queue = Bounded;
  try_publish = λ q r. offer q.room q.sent r;
  try_disconnect = λ q. (q, ok tt);
  sent = λ q. q.sent;
}

offer-takes :
    (n : ℕ) (sent : List Request) (r : Request)
    → (offer n sent r).1 ≡ ok tt
    → (offer n sent r).0.sent ≡ sent ++ (r ∷ [])
offer-takes zero sent r h = cc
offer-takes (suc n) sent r h = refl

offer-refuses :
    (n : ℕ) (sent : List Request) (r : Request) (e : ClientError)
    → (offer n sent r).1 ≡ err e
    → (offer n sent r).0.sent ≡ sent
offer-refuses zero sent r e h = refl
offer-refuses (suc n) sent r e h = cc

pub law : Behaves client
law = record {
  takes = λ q r h. offer-takes q.room q.sent r h;
  refuses = λ q r e h. offer-refuses q.room q.sent r e h;
  disconnects = λ q. refl;
}

abbrev offer-room :
    (n : ℕ) (sent : List Request) (r : Request)
    → 0 < n
    → ((offer n sent r).1 ≡ ok tt) × (n ≤ (offer n sent r).0.room + 1)
offer-room zero sent r h = ground (arith, h)
offer-room (suc n) sent r h = (refl, omega arith)

abbrev pub free : Room client
free = record { room = λ q. q.room; takes = λ q r h. offer-room q.room q.sent r h }

abbrev pub codecs : Codecs
codecs = record {
  Value = List ℕ;
  write_json = λ v. ok v;
  write_msgpack = λ v. ok (0xC4 ∷ v);
  write_cbor = λ v. ok (0x40 ∷ v);
  compress_gzip = λ b. ok (0x1F ∷ 0x8B ∷ b);
  compress_zstd = λ level b. ok (0x28 ∷ 0xB5 ∷ b);
}

abbrev pub queue : ℕ → Bounded
queue n = record { room = n; sent = [] }

abbrev pub endpoint : EndpointMetadata
endpoint = record { topic = codes "cpu"; qos = 1; retain = false }

abbrev pub settings : Config
settings = record default_config { base_topic = codes "hive"; client_id = codes "bee" }

-- Packets of 64 bytes, with framing.
abbrev pub framed_settings : Config
framed_settings = record settings { framing = record { enabled = true }; max_packet_size = 64 }

abbrev pub publisher : Publisher Bounded
publisher = Publisher.new (queue 4) settings

abbrev pub framing_publisher : ℕ → Publisher Bounded
framing_publisher n = Publisher.new (queue n) framed_settings

abbrev pub sample : List ℕ
sample = codes "{\"user\":1,\"idle\":2}"

abbrev pub long_sample : List ℕ
long_sample = codes "{\"user\":1,\"nice\":0,\"system\":3,\"idle\":2,\"iowait\":0}"
