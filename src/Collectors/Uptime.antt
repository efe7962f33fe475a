-- ===== src/Collectors/Uptime.antt =====
-- src/core/collectors/uptime.rs: `parse` of /proc/uptime. The wall clock is an argument.
use blazebee.Base.{Result, ok, ◌>>=◌}
use blazebee.Base.Text.{Text, codes}
use blazebee.Collectors.Error.{CollectorError}
use blazebee.Collectors.Procfs.{fields}
use blazebee.Collectors.Parsing.{ℤ, F64, next_with}

abbrev path : Text
path = codes "/proc/uptime"

pub record UptimeInfo (F : Type 0) : Type 0 where
  pub uptime_seconds : F
  pub idle_time_seconds : F
  pub boot_time_seconds : ℤ

unfoldable pub parse : {F : Type 0} → F64 F → Text → F → Result CollectorError (UptimeInfo F)
parse f64 content now_unix = do
  uptime ← next_with f64.from_str (fields content) path (codes "uptime")
  idle ← next_with f64.from_str uptime.1 path (codes "idle")
  ok (record {
    uptime_seconds = uptime.0;
    idle_time_seconds = idle.0;
    boot_time_seconds = f64.floor_i64 (f64.sub now_unix uptime.0);
  })
