-- ===== src/Logging.antt =====
-- src/logger.rs: `init`. The environment, the connection to journald and the installing of the subscriber are
-- arguments; a layer is its settings.
pub mod Outputs
use blazebee.Base.{
  Bool, true, false, not, ◌&&◌, Option, none, some, is_some, Result, ok, err, ◌>>=◌, ◌>>◌, map_err,
  refuse, if◌then◌else◌,
}
use blazebee.Base.Text.{Text, is_empty}
use blazebee.Error.{IoError}
use blazebee.Settings.{
  LogFormat, TimestampFormat, ConsoleConfig, JournaldConfig, LoggerConfig, Filters,
}

pub data LoggerError : Type 0 where
  level : Text → Text → LoggerError
  no_journald : IoError → LoggerError
  no_output already_set : LoggerError

-- `rust_log` is RUST_LOG where it is set and Unicode; `free` says that no subscriber is installed yet.
pub record Registry : Type 0 where
  pub rust_log : Option Text
  pub journald : Result IoError (Unit {0})
  pub free : Bool

pub record ConsoleLayer : Type 0 where
  pub target : Bool
  pub thread_ids : Bool
  pub span_close : Bool
  pub ansi : Bool
  pub timer : TimestampFormat
  pub format : LogFormat

pub record Layers : Type 0 where
  pub console : Option ConsoleLayer
  pub journald : Option Text
  pub filter : Text

unfoldable pub console_layer : ConsoleConfig → TimestampFormat → ConsoleLayer
console_layer c timestamps = record {
  target = c.show_target;
  thread_ids = c.show_thread_ids;
  span_close = c.show_spans;
  ansi = c.ansi_colors;
  timer = timestamps;
  format = c.format;
}

-- RUST_LOG comes before the configured level, unless it is empty.
unfoldable pub directives : Option Text → Text → Text
directives none configured = configured
directives (some d) configured = if is_empty d then configured else d

-- With whether there is a console.
unfoldable pub journald_layer : Registry → JournaldConfig → Bool → Result LoggerError (Option Text)
journald_layer registry j has_console =
    if j.enabled
    then elim registry.journald [
      | ok u ↦ ok (some j.identifier)
      | err e ↦ if has_console then ok none else err (no_journald e)
    ]
    else ok none

-- `init` after the filter.
unfoldable pub install : Registry → LoggerConfig → Text → Result LoggerError Layers
install registry l filter =
    let console =
      if l.console.enabled then some (console_layer l.console l.timestamp_format) else none in
    journald_layer registry l.journald (is_some console) >>= λ journald.
    refuse (not (is_some console) && not (is_some journald)) no_output
    >> (refuse (not registry.free) already_set
        >> ok (record { console = console; journald = journald; filter = filter }))

unfoldable pub init : Filters → Registry → LoggerConfig → Result LoggerError Layers
init filters registry l =
    let filter = directives registry.rust_log l.level in
    map_err (level filter) (filters.try_new filter) >> install registry l filter
