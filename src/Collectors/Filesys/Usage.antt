-- ===== src/Collectors/Filesys/Usage.antt =====
-- `statvfs` of src/core/collectors/filesys.rs. The system call is an argument: its errors, or the fields that the
-- program reads of `struct statvfs`, each of which is a u64.
use blazebee.Base.{ℕ, ◌-◌, ◌^◌, ◌<◌, ◌≤◌, Result, ok, err, if◌then◌else◌, arith}
use blazebee.Base.Text.{Text, codes, contains}
use blazebee.Error.{IoError, invalid_input}
use blazebee.Collectors.Counters.{saturating_mul}

pub record Statvfs : Type 0 where
  pub f_frsize : ℕ
  pub f_blocks : ℕ
  pub f_bfree : ℕ
  pub f_bavail : ℕ
  pub f_files : ℕ
  pub f_ffree : ℕ
  pub f_favail : ℕ

pub record Usage : Type 0 where
  pub total_bytes : ℕ
  pub used_bytes : ℕ
  pub available_bytes : ℕ
  pub total_inodes : ℕ
  pub used_inodes : ℕ
  pub available_inodes : ℕ

-- `saturating_sub` is the truncated subtraction.
unfoldable pub usage_of : Statvfs → Usage
usage_of stat = record {
  total_bytes = saturating_mul stat.f_blocks stat.f_frsize;
  used_bytes = saturating_mul (stat.f_blocks - stat.f_bfree) stat.f_frsize;
  available_bytes = saturating_mul stat.f_bavail stat.f_frsize;
  total_inodes = stat.f_files;
  used_inodes = stat.f_files - stat.f_ffree;
  available_inodes = stat.f_favail;
}

-- With the call's answer for a path; a path that holds a NUL never reaches the system.
unfoldable pub statvfs : (Text → Result IoError Statvfs) → Text → Result IoError Usage
statvfs call mount_point =
    if contains mount_point 0
    then err (record { kind = invalid_input; message = codes "NUL in path" })
    else elim (call mount_point) [ err e ↦ err e | ok stat ↦ ok (usage_of stat) ]

-- Every figure is a u64, and no more is in use than there is.
pub record IsUsage (u : Usage) : Type 0 where
  pub total : u.total_bytes < 2 ^ 64
  pub used : u.used_bytes ≤ u.total_bytes
  pub available : u.available_bytes < 2 ^ 64
  pub inodes : u.used_inodes ≤ u.total_inodes

saturating_mul_mono : (a b k : ℕ) → a ≤ b → saturating_mul a k ≤ saturating_mul b k
saturating_mul_mono a b k h = grind arith

pub usage_of-IsUsage : (stat : Statvfs) → IsUsage (usage_of stat)
unfolding usage_of
usage_of-IsUsage stat = record {
  total = omega arith;
  used =
      saturating_mul_mono (stat.f_blocks - stat.f_bfree) stat.f_blocks stat.f_frsize (omega arith);
  available = omega arith;
  inodes = omega arith;
}
