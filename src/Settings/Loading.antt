-- ===== src/Settings/Loading.antt =====
-- src/config/mod.rs: `load`, `from_path`, `parse` and `hostname`. The environment, the files, gethostname(2), and the
-- two halves of the TOML deserializer (text to tree, tree to configuration) are arguments.
pub mod Outcome
use blazebee.Base.{
  ℕ, ◌-◌, ◌==◌, Bool, true, false, Option, none, some, List, [], ◌∷◌, ◌++◌, take, length, Result,
  ok, err, ◌>>=◌, ◌>>◌, map_err, if◌then◌else◌,
}
use blazebee.Base.Text.{Text, codes, is_empty}
use blazebee.Base.Utf8.{from_utf8}
use blazebee.Error.{IoError}
use blazebee.Settings.{Settings, Filters, LoadError, validate}
use blazebee.Settings.Expand.{EnvError}
use blazebee.Settings.Tree.{Value, expand_value}

abbrev pub env_config_path : Text
env_config_path = codes "BLAZEBEE_CONFIG"

abbrev pub default_config_path : Text
default_config_path = codes "/etc/blazebee/config.toml"

-- The errors before the checks, and those of the checks.
pub data LoadingError (E : Type 0) : Type 0 where
  no_file : LoadingError E
  io : Text → IoError → LoadingError E
  env : Text → EnvError → LoadingError E
  toml : Text → E → LoadingError E
  refused : LoadError → LoadingError E

-- The bytes before the first NUL.
abbrev pub until_nul : List ℕ → List ℕ
until_nul [] = []
until_nul (b ∷ bs) = let rest = until_nul bs in if b == 0 then [] else b ∷ rest

abbrev name_of : Option Text → Text
name_of none = codes "unknown"
name_of (some name) = if is_empty name then codes "unknown" else name

-- With what gethostname leaves in the buffer, `none` where it fails. The last byte is set to NUL.
unfoldable pub hostname : Option (List ℕ) → Text
hostname none = codes "unknown"
hostname (some buf) = name_of (from_utf8 (until_nul (take (length buf - 1) buf ++ (0 ∷ []))))

-- `var_os` gives a path, and `var` a text where the variable is Unicode; a path stands for the text that it shows as.
pub record Host (S E : Type 0) : Type 0 where
  pub var_os : Text → Option Text
  pub var : Text → Option Text
  pub is_file : Text → Bool
  pub read_to_string : Text → Result IoError Text
  pub gethostname : Option (List ℕ)
  pub from_str : Text → Result E (Value S)
  pub try_into : Value S → Result E Settings

module _ {S E : Type 0} (host : Host S E) (filters : Filters) (built : Text → Bool) where
  -- An empty client id is replaced by one with the name of the host.
  unfoldable pub fill_client_id : Settings → Settings
  fill_client_id s =
      if is_empty s.transport.client_id
      then record s {
        transport = record s.transport {
          client_id = codes "blazebee-" ++ hostname host.gethostname;
        };
      }
      else s

  -- Config::parse
  unfoldable pub parse : Text → Text → (Text → Option Text) → Result (LoadingError E) Settings
  parse text path lookup = do
    table ← map_err (toml path) (host.from_str text)
    expanded ← map_err (env path) (expand_value lookup table)
    config ← map_err (toml path) (host.try_into expanded)
    let filled = fill_client_id (record config { source = path })
    map_err refused (validate filters host.is_file built filled)
    ok filled

  -- Config::from_path
  unfoldable pub from_path : Text → Result (LoadingError E) Settings
  from_path path = do text ← map_err (io path) (host.read_to_string path); parse text path host.var

  -- Config::load
  unfoldable pub load : Result (LoadingError E) Settings
  load = elim (host.var_os env_config_path) [
    | some path ↦ from_path path
    | none ↦ if host.is_file default_config_path then from_path default_config_path else err no_file
  ]
