-- ===== src/Logging/Outputs.antt =====
-- What the set-up of logging (src/logger.rs) makes of a configuration that has passed its checks.
use blazebee.Base.{
  ◌≡◌, refl, Bool, true, false, ◌&&◌, ◌||◌, Option, none, some, is_some, Result, ok, err,
  Bool-cases, Result-cases, inl, inr, arith, if◌then◌else◌,
}
use blazebee.Base.Text.{Text, is_empty}
use blazebee.Settings.{LoggerConfig, Filters, validate_logger, validate_level}
use blazebee.Logging.{
  LoggerError, level, no_journald, no_output, already_set, Registry, Layers, directives,
  journald_layer, install, init,
}

-- Journald can be reached.
abbrev pub answers : {E A : Type 0} → Result E A → Bool
answers (ok a) = true
answers (err e) = false

module _ (filters : Filters) (registry : Registry) (l : LoggerConfig) where
  abbrev pub Installs : Result LoggerError Layers → Type 0
  Installs (ok layers) =
      (layers.filter ≡ directives registry.rust_log l.level)
      × (is_some layers.console ≡ l.console.enabled)
      × (layers.journald ≡ (
          if l.journald.enabled && answers registry.journald
          then some l.journald.identifier
          else none))
      × (is_some layers.console || is_some layers.journald ≡ true)
  Installs (err (level d e)) = (registry.rust_log ≡ some d) × (filters.try_new d ≡ err e)
  Installs (err (no_journald e)) =
      (l.journald.enabled ≡ true) × (l.console.enabled ≡ false) × (registry.journald ≡ err e)
  Installs (err no_output) = (l.console.enabled ≡ false) × (l.journald.enabled ≡ false)
  Installs (err already_set) = registry.free ≡ false

  level_accepted :
      (filters.is_level l.level ≡ true → filters.try_new l.level ≡ ok tt)
      → validate_logger filters l ≡ ok tt
      → filters.try_new l.level ≡ ok tt
  unfolding validate_logger validate_level
  level_accepted law valid = elim (Result-cases (filters.try_new l.level)) [
    | inl (u, e) ↦ e
    | inr (x, e) ↦ elim (Bool-cases (filters.is_level l.level)) [
      | inl known ↦ law known
      | inr unknown ↦ ground (arith, valid, e, unknown)
    ]
  ]

  install-Installs : Installs (install registry l (directives registry.rust_log l.level))
  unfolding install journald_layer
  install-Installs = ground arith

  refused-Installs :
      (r : Option Text) (x : Text)
      → filters.try_new l.level ≡ ok tt
      → registry.rust_log ≡ r
      → filters.try_new (directives r l.level) ≡ err x
      → Installs (err (level (directives r l.level) x))
  unfolding directives
  refused-Installs none x fine e bad = cc
  refused-Installs (some d) x fine e bad = elim (Bool-cases (is_empty d)) [
    | inl h ↦ cc (rw h at bad, fine)
    | inr h ↦ rw h ((e, rw h at bad))
  ]

  -- A configuration that passes its checks installs a console exactly when it is enabled, journald under its
  -- identifier exactly when it is enabled and can be reached, and at least one of them, with RUST_LOG or else its own
  -- level as the filter. It fails only for a RUST_LOG that is no filter, for journald that cannot be reached without
  -- a console, with both outputs disabled, or after another subscriber. A level is taken as a filter.
  pub init-Installs :
      (filters.is_level l.level ≡ true → filters.try_new l.level ≡ ok tt)
      → validate_logger filters l ≡ ok tt
      → Installs (init filters registry l)
  unfolding init
  init-Installs law valid =
      elim (Result-cases (filters.try_new (directives registry.rust_log l.level))) [
        | inl (u, e) ↦ rw (init, e) install-Installs
        | inr (x, e) ↦
            rw (init, e) (refused-Installs registry.rust_log x (level_accepted law valid) refl e)
      ]
