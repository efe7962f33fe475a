-- ===== src/Collectors/Error.antt =====
-- src/core/collectors/error.rs
use blazebee.Base.{ℕ}
use blazebee.Base.Text.{Text}
use blazebee.Error.{IoError}

-- A path, then what is wrong with what; a timeout is in seconds.
pub data CollectorError : Type 0 where
  read : Text → IoError → CollectorError
  parse : Text → Text → Text → CollectorError
  missing : Text → Text → CollectorError
  command : Text → Text → CollectorError
  timeout : ℕ → CollectorError
  unsupported : Text → CollectorError
