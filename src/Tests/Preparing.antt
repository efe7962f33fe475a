-- ===== src/Tests/Preparing.antt =====
-- Loading a file with references (src/config/mod.rs, src/config/env.rs).
use blazebee.Base.{
  ℕ, ◌≡◌, refl, Bool, true, Option, none, some, List, [], ◌∷◌, ok, err, if◌then◌else◌,
}
use blazebee.Base.Text.{Text, codes, text_eq, contains}
use blazebee.Error.{not_found}
use blazebee.Logging.{Registry, init}
use blazebee.Logging.Outputs.{Installs, init-Installs}
use blazebee.Settings.{Filters, default_logger, default_metrics, validate_logger, validate_level}
use blazebee.Settings.Expand.{expand}
use blazebee.Settings.Expand.Segments.{
  Segment, literal, reference, write, value_of, escape, AreWritten,
}
use blazebee.Settings.Expand.Substitution.{expand-write}
use blazebee.Settings.Tree.{string}
use blazebee.Settings.Loading.{Host}
use blazebee.Tests.Fixtures.{settings}

abbrev var : Text → Option Text
var name = if text_eq name (codes "HOST") then some (codes "pi") else none

abbrev parts : List Segment
parts = literal (codes "$${a $b-") ∷ reference (codes "HOST") ∷ literal (codes "/5$") ∷ []

written : AreWritten parts
written = (refl, (refl, refl, tt))

expand-write_example : expand var (write parts) ≡ some (value_of var parts)
expand-write_example = expand-write var parts written

spells : write parts ≡ codes "$$${a $b-${HOST}/5$"
unfolding write escape
spells = refl

abbrev host : Host ℕ Text
host = record {
  var_os = var;
  var = var;
  is_file = λ path. true;
  read_to_string = λ path. ok (codes "host = \"${HOST}\"");
  gethostname = some (codes "pi");
  from_str = λ text. ok (string text);
  try_into = λ tree. ok (record {
    logger = default_logger;
    metrics = default_metrics;
    transport = settings;
    source = [];
  });
}

abbrev filters : Filters
filters = record { try_new = λ s. ok tt; is_level = λ s. true }

valid : validate_logger filters default_logger ≡ ok tt
unfolding validate_logger validate_level contains
valid = refl

-- Journald is not there.
abbrev registry : Registry
registry = record {
  rust_log = none;
  journald = err (record { kind = not_found; message = [] });
  free = true;
}

init-Installs_example :
    Installs filters registry default_logger (init filters registry default_logger)
init-Installs_example = init-Installs filters registry default_logger (λ h. refl) valid

abbrev built : Text → Bool
built feature = true
