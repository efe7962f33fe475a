-- ===== src/Connection/Handle/Reads.antt =====
-- What keeps `Transport::connect` of crates/mqtt/v3/src/connection.rs from starting.
use blazebee.Base.{
  ◌≡◌, refl, Bool, Option, none, some, Result, ok, err, Bool-cases, Result-cases, inl, inr,
}
use blazebee.Base.Text.{Text}
use blazebee.Error.{IoError, TransferError, read_file}
use blazebee.Config.{TlsConfig, Config, validate, is_enabled}
use blazebee.Connection.Handle.{
  ReadFile, connect, build_options, build_transport, build_tls, read_client_auth,
}

-- What fails is the reading of a file.
abbrev pub Reads {ℓ} : {A : Type ℓ} → ReadFile → Result TransferError A → Type 0
Reads fs_read (ok a) = Unit
Reads fs_read (err e) =
    (path : Text) × (io : IoError) × (e ≡ read_file path io) × (fs_read path ≡ err io)

module _ (fs_read : ReadFile) where
  read_client_auth-Reads :
      (cert key : Option Text) → Reads fs_read (read_client_auth fs_read cert key)
  unfolding read_client_auth
  read_client_auth-Reads none key = tt
  read_client_auth-Reads (some cert) none = tt
  read_client_auth-Reads (some cert) (some key) = elim (Result-cases (fs_read cert)) [
    | inr (io, h) ↦ rw h ((cert, io, refl, h))
    | inl (pem, h) ↦ elim (Result-cases (fs_read key)) [
      | inr (io, h') ↦ rw (h, h') ((key, io, refl, h'))
      | inl (pem', h') ↦ rw (h, h') tt
    ]
  ]

  build_tls-Reads :
      (tls : TlsConfig) (ca_path : Option Text) → Reads fs_read (build_tls fs_read tls ca_path)
  unfolding build_tls
  build_tls-Reads tls none = tt
  build_tls-Reads tls (some path) = elim (Result-cases (fs_read path)) [
    | inr (io, h) ↦ rw h ((path, io, refl, h))
    | inl (ca, h) ↦
        let auth = read_client_auth-Reads tls.client_cert_path tls.client_key_path in
        elim (Result-cases (read_client_auth fs_read tls.client_cert_path tls.client_key_path)) [
          | inr (e, h') ↦ rw (h, h') (rw h' at auth)
          | inl (pair, h') ↦ rw (h, h') tt
        ]
  ]

  -- Once the settings are valid, only a file that cannot be read keeps the transport from starting.
  pub connect-Reads :
      (is_file : Text → Bool) (c : Config)
      → validate is_file c ≡ ok tt
      → Reads fs_read (connect fs_read is_file c)
  unfolding connect build_options build_transport
  connect-Reads is_file c valid = elim (Bool-cases (is_enabled c.tls)) [
    | inr e ↦ rw (valid, e) tt
    | inl e ↦
        let tls = build_tls-Reads c.tls c.tls.ca_cert_path in
        elim (Result-cases (build_tls fs_read c.tls c.tls.ca_cert_path)) [
          | inr (x, h) ↦ rw (valid, e, h) (rw h at tls)
          | inl (link, h) ↦ rw (valid, e, h) tt
        ]
  ]
