-- ===== src/Connection/Handle/Setup.antt =====
-- What a configuration becomes when the transport connects (crates/mqtt/v3/src/connection.rs).
use blazebee.Base.{
  ◌≡◌, ◌↔◌, inl, inr, refl, Bool, true, false, some, ok, Result-cases, arith, is_some,
}
use blazebee.Base.Text.{Text}
use blazebee.Config.{Config, validate, is_enabled, has_client_auth}
use blazebee.Config.Valid.{IsConfig, validate_iff}
use blazebee.Connection.{status_offline}
use blazebee.Publisher.{at_least_once}
use blazebee.Connection.Handle.{
  Link, tcp, tls_simple, ReadFile, Start, options_with, status_topic, connect, build_options,
  build_transport, build_tls, read_client_auth,
}

-- The transport authenticates the client by a certificate.
abbrev pub has_certificate : Link → Bool
has_certificate (tls_simple ca (some pair)) = true
has_certificate _ = false

abbrev pub is_tls : Link → Bool
is_tls tcp = false
is_tls _ = true

module _ (fs_read : ReadFile) where
  build_transport_lem :
      (c : Config) (t : Link)
      → build_transport fs_read c ≡ ok t
      → (is_tls t ≡ is_enabled c.tls)
        × (has_certificate t ≡ true
            ↔ ((is_some c.tls.ca_cert_path ≡ true) × (has_client_auth c.tls ≡ true)))
  unfolding build_transport build_tls read_client_auth is_enabled has_client_auth
  build_transport_lem c t h = ground arith

  connect-eq_ok :
      (is_file : Text → Bool) (c : Config) (s : Start)
      → connect fs_read is_file c ≡ ok s
      → (t : Link) × (validate is_file c ≡ ok tt)
        × (build_transport fs_read c ≡ ok t)
        × (s.options ≡ options_with c t)
        × (s.driver_topic ≡ status_topic c)
  unfolding connect build_options
  connect-eq_ok is_file c s h = elim (Result-cases (validate is_file c)) [
    | inl (u, e) ↦ elim (Result-cases (build_transport fs_read c)) [
      | inl (t, et) ↦ let hs = rw (e, et) at h in (t, e, et, cc, cc)
      | inr (x, et) ↦ cc (rw (e, et) at h)
    ]
    | inr (x, e) ↦ cc (rw e at h)
  ]

  -- A transport that starts has a configuration that `validate` accepts, leaves a retained `offline` on the
  -- driver's own status topic as its will, uses TLS exactly when the settings enable it, and
  -- authenticates by a client certificate exactly when both client files and a CA file are set.
  pub connect-start :
      (is_file : Text → Bool) (c : Config) (s : Start)
      → connect fs_read is_file c ≡ ok s
      → IsConfig is_file c
        × (s.options.last_will ≡ record {
          topic = s.driver_topic;
          qos = at_least_once;
          retain = true;
          payload = status_offline;
        })
        × (is_tls s.options.transport ≡ is_enabled c.tls)
        × ((has_certificate s.options.transport ≡ true)
            ↔ ((is_some c.tls.ca_cert_path ≡ true) × (has_client_auth c.tls ≡ true)))
  connect-start is_file c s h =
      let (t, v, b, o, d) = connect-eq_ok is_file c s h in
      let (e, i) = build_transport_lem c t b in rw (o, d) ((validate_iff is_file c).0 v, refl, e, i)
