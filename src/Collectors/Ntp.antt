-- ===== src/Collectors/Ntp.antt =====
-- src/core/collectors/ntp.rs: `from_timex` and `read_timex`. adjtimex(2) and the arithmetic of `f64` are arguments.
-- The status bits of the kernel are below 2^31.
use blazebee.Base.{ℕ, ◌/◌, ◌%◌, ◌^◌, ◌==◌, Bool, not, ◌&&◌, Result, ok, err, if◌then◌else◌}
use blazebee.Base.Text.{codes}
use blazebee.Error.{IoError}
use blazebee.Collectors.Error.{CollectorError, command}
use blazebee.Collectors.Parsing.{ℤ, pos, Reals, per_thousand}

-- The numbers of the bits.
abbrev pub sta_nano : ℕ
sta_nano = 13

abbrev pub sta_unsync : ℕ
sta_unsync = 6

abbrev pub time_error : ℕ
time_error = 5

abbrev pub has_bit : ℕ → ℕ → Bool
has_bit status bit = status / 2 ^ bit % 2 == 1

-- FREQ_SCALE, as an i64.
abbrev pub freq_scale : ℤ
freq_scale = pos 65536

pub record NtpStats (F : Type 0) : Type 0 where
  pub synchronized : Bool
  pub clock_state : ℕ
  pub status : ℕ
  pub offset_ms : F
  pub max_error_ms : F
  pub estimated_error_ms : F
  pub frequency_ppm : F
  pub tai_offset : ℤ

-- What adjtimex leaves in the buffer.
pub record Timex : Type 0 where
  pub status : ℕ
  pub offset : ℤ
  pub maxerror : ℤ
  pub esterror : ℤ
  pub freq : ℤ
  pub tai : ℤ

module _ {F : Type 0} (reals : Reals F) where
  unfoldable pub from_timex : ℕ → Timex → NtpStats F
  from_timex state t =
      let offset = reals.of_i64 t.offset in
      let offset_us = if has_bit t.status sta_nano then per_thousand reals offset else offset in
      record {
        synchronized = not (state == time_error) && not (has_bit t.status sta_unsync);
        clock_state = state;
        status = t.status;
        offset_ms = per_thousand reals offset_us;
        max_error_ms = per_thousand reals (reals.of_i64 t.maxerror);
        estimated_error_ms = per_thousand reals (reals.of_i64 t.esterror);
        frequency_ppm = reals.div (reals.of_i64 t.freq) (reals.of_i64 freq_scale);
        tai_offset = t.tai;
      }

  -- By what the call returns: an error where that is negative.
  unfoldable pub read_timex : Result IoError (ℕ × Timex) → Result CollectorError (NtpStats F)
  read_timex (err e) = err (command (codes "adjtimex") e.message)
  read_timex (ok (state, t)) = ok (from_timex state t)
