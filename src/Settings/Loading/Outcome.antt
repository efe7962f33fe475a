-- ===== src/Settings/Loading/Outcome.antt =====
-- What loading a configuration (src/config/mod.rs) can end with.
use blazebee.Base.{
  ◌≡◌, ◌⊎◌, refl, Bool, true, false, Option, none, some, Result, ok, err, Bool-cases, Result-cases,
  inl, inr,
}
use blazebee.Base.Text.{Text, is_empty}
use blazebee.Settings.{Settings, Filters, validate}
use blazebee.Settings.Tree.{Value, expand_value}
use blazebee.Settings.Valid.{IsSettings, validate-IsSettings}
use blazebee.Settings.Loading.{
  LoadingError, no_file, io, env, toml, refused, Host, env_config_path, default_config_path,
  fill_client_id, parse, from_path, load,
}

module _ {S E : Type 0} (host : Host S E) (filters : Filters) (built : Text → Bool) where
  -- The tree that the file at a path holds.
  abbrev pub Holds : Text → Value S → Type 0
  Holds path tree =
      (text : Text) × (host.read_to_string path ≡ ok text) × (host.from_str text ≡ ok tree)

  -- The configuration that the file's tree becomes, with its variables replaced and the client id filled in.
  abbrev pub Prepared : Text → Settings → Type 0
  Prepared path s =
      (tree expanded : Value S) × (config : Settings) × Holds path tree
      × (expand_value host.var tree ≡ ok expanded)
      × (host.try_into expanded ≡ ok config)
      × (s ≡ fill_client_id host filters built (record config { source = path }))

  -- From a file: a configuration that passes every check and knows its file, or the error of the step that failed.
  abbrev pub Parsed : Text → Result (LoadingError E) Settings → Type 0
  Parsed path (ok s) = Prepared path s × IsSettings built host.is_file s × (s.source ≡ path)
  Parsed path (err no_file) = ⊥
  Parsed path (err (io p e)) = (p ≡ path) × (host.read_to_string path ≡ err e)
  Parsed path (err (env p e)) =
      (p ≡ path) × ((tree : Value S) × Holds path tree × (expand_value host.var tree ≡ err e))
  Parsed path (err (toml p e)) =
      (p ≡ path)
      × (((text : Text) × (host.read_to_string path ≡ ok text) × (host.from_str text ≡ err e))
          ⊎ ((tree expanded : Value S) × Holds path tree
              × (expand_value host.var tree ≡ ok expanded)
              × (host.try_into expanded ≡ err e)))
  Parsed path (err (refused e)) =
      (s : Settings) × Prepared path s × (validate filters host.is_file built s ≡ err e)

  fill_source : (s : Settings) → (fill_client_id host filters built s).source ≡ s.source
  unfolding fill_client_id
  fill_source s = elim (Bool-cases (is_empty s.transport.client_id)) [
    | inl e ↦ rw e refl
    | inr e ↦ rw e refl
  ]

  parse-Parsed :
      (text path : Text)
      → host.read_to_string path ≡ ok text
      → Parsed path (parse host filters built text path host.var)
  unfolding parse
  parse-Parsed text path r = elim (Result-cases (host.from_str text)) [
    | inr (e, h) ↦ rw h ((refl, inl ((text, r, h))))
    | inl (tree, h) ↦ elim (Result-cases (expand_value host.var tree)) [
      | inr (e, h') ↦ rw (h, h') ((refl, (tree, (text, r, h), h')))
      | inl (expanded, h') ↦ elim (Result-cases (host.try_into expanded)) [
        | inr (e, h₂) ↦ rw (h, h', h₂) ((refl, inr ((tree, expanded, (text, r, h), h', h₂))))
        | inl (config, h₂) ↦
            let filled = fill_client_id host filters built (record config { source = path }) in
            let prepared : Prepared path filled =
              (tree, expanded, config, (text, r, h), h', h₂, refl) in
            elim (Result-cases (validate filters host.is_file built filled)) [
              | inr (e, h₃) ↦ rw (h, h', h₂, h₃) ((filled, prepared, h₃))
              | inl (u, h₃) ↦
                  rw (h, h', h₂, h₃)
                    ((
                      prepared,
                      validate-IsSettings filters host.is_file built filled h₃,
                      fill_source (record config { source = path }),
                    ))
            ]
      ]
    ]
  ]

  from_path-Parsed : (path : Text) → Parsed path (from_path host filters built path)
  unfolding from_path
  from_path-Parsed path = elim (Result-cases (host.read_to_string path)) [
    | inr (e, h) ↦ rw h (refl, h)
    | inl (text, h) ↦ rw h (parse-Parsed text path h)
  ]

  -- By the variable that names a file, and whether the default file is there.
  abbrev pub Loads : Option Text → Bool → Result (LoadingError E) Settings → Type 0
  Loads (some path) default r = Parsed path r
  Loads none true r = Parsed default_config_path r
  Loads none false r = r ≡ err no_file

  load-cases :
      (variable : Option Text) (default : Bool)
      → host.var_os env_config_path ≡ variable
      → host.is_file default_config_path ≡ default
      → Loads variable default (load host filters built)
  unfolding load
  load-cases (some path) default e d = rw (load, e) (from_path-Parsed path)
  load-cases none true e d = rw (load, e, d) (from_path-Parsed default_config_path)
  load-cases none false e d = rw (load, e, d) refl

  pub load-Loads :
      Loads
        (host.var_os env_config_path)
        (host.is_file default_config_path)
        (load host filters built)
  load-Loads = load-cases (host.var_os env_config_path) (host.is_file default_config_path) refl refl

  Loads-IsSettings :
      (variable : Option Text) (default : Bool) (s : Settings)
      → Loads variable default (ok s)
      → IsSettings built host.is_file s
  Loads-IsSettings (some path) default s h = h.1
  Loads-IsSettings none true s h = h.1
  Loads-IsSettings none false s h = cc

  -- A configuration that is loaded has passed every check.
  pub load-IsSettings :
      (s : Settings) → load host filters built ≡ ok s → IsSettings built host.is_file s
  load-IsSettings s h =
      Loads-IsSettings (host.var_os env_config_path) (host.is_file default_config_path) s
        (rw h at load-Loads)
