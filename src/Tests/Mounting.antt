-- ===== src/Tests/Mounting.antt =====
-- The filesystem collector (src/core/collectors/filesys.rs) at concrete mounts, and with a mount that hangs.
use blazebee.Base.{
  arith, inl, inr, if◌then◌else◌, ℕ, ◌+◌, ◌≤◌, ◌≡◌, refl, some, List, [], ◌∷◌, Option, Result, ok,
}
use blazebee.Base.Text.{Text, codes, text_eq, contains}
use blazebee.Base.Utf8.{as_bytes, from_utf8_lossy}
use blazebee.Error.{IoError}
use blazebee.Collectors.Procfs.{lines, fields, pieces, unescape_mount_field, unescape_bytes}
use blazebee.Collectors.Maps.{member, get, put, remove}
use blazebee.Collectors.Filesys.{
  Mount, is_skipped, skipped_fs_types, parse_mount, add_mount, read_mounts, take_out, parse_mounts,
}
use blazebee.Collectors.Filesys.Mounts.{Measured, parse_mounts_lem}
use blazebee.Collectors.Filesys.Usage.{Usage}
use blazebee.Collectors.Filesys.Calls.{
  start, start_call, Turn, late, dropped, usage, take_turn, measure, cut_at, run,
}
use blazebee.Collectors.Filesys.Calls.Loose.{parked_at}
use blazebee.Collectors.Filesys.Calls.Hanging.{Separate, Hung}
use blazebee.Collectors.Filesys.Calls.Dropped.{run-dropped}
use blazebee.Scheduler.{collect_timeout}
use blazebee.Collectors.Filesys.Calls.Parked.{cuts, run-parked}
use blazebee.Settings.Expand.{strip_prefix}

abbrev mounts_file : Text
mounts_file =
    codes
      "/dev/a / ext4 rw 0 0\nproc /proc proc rw 0 0\n/dev/b /m\\040n xfs rw 0 0\n/dev/c / btrfs rw 0 0\n"

abbrev root : Mount
root = record { device = codes "/dev/c"; mount_point = codes "/"; fs_type = codes "btrfs" }

abbrev second : Mount
second = record { device = codes "/dev/b"; mount_point = codes "/m n"; fs_type = codes "xfs" }

reads : parse_mounts mounts_file ≡ root ∷ second ∷ []
unfolding parse_mounts read_mounts add_mount parse_mount take_out is_skipped skipped_fs_types lines
    fields pieces unescape_mount_field unescape_bytes as_bytes from_utf8_lossy contains member get
    put remove text_eq strip_prefix
reads = refl

parse_mounts_lem_example : Measured mounts_file (parse_mounts mounts_file)
parse_mounts_lem_example = parse_mounts_lem mounts_file

abbrev sizes : Usage
sizes = record {
  total_bytes = 8;
  used_bytes = 4;
  available_bytes = 3;
  total_inodes = 2;
  used_inodes = 1;
  available_inodes = 1;
}

abbrev results : ℕ → Option (Result IoError Usage)
results id = some (ok sizes)

abbrev hangs : Text → Turn
hangs p = record { returned = []; answer = late }

abbrev drops : Text → Turn
drops p = record { returned = []; answer = dropped }

abbrev cycles : List (List Mount × (Text → Turn))
cycles = (root ∷ second ∷ [], drops) ∷ (root ∷ [], hangs) ∷ (root ∷ second ∷ [], hangs) ∷ []

run-parked_example :
    let (c, os) = run results start cycles in
    parked_at (codes "/") c.parked ≤ 1 + cuts (codes "/") os
run-parked_example = run-parked results (codes "/") cycles

-- Mounts at `a`, `b` and so on.
abbrev mount : ℕ → Mount
mount c = record { device = codes "nas"; mount_point = c ∷ []; fs_type = codes "nfs4" }

abbrev six_mounts : List Mount
six_mounts = mount b'a' ∷ mount b'b' ∷ mount b'c' ∷ mount b'd' ∷ mount b'e' ∷ mount b'f' ∷ []

-- Ten seconds are over at the last of them.
abbrev first_turn : Text → Turn
first_turn p = if text_eq p (codes "f") then drops p else hangs p

abbrev first_cycle : List Mount × (Text → Turn)
first_cycle = (six_mounts, first_turn)

abbrev second_cycle : List Mount × (Text → Turn)
second_cycle = (six_mounts, hangs)

separate : Separate six_mounts
unfolding text_eq
separate = (
  (refl, (refl, (refl, (refl, (refl, tt))))),
  (
    (refl, (refl, (refl, (refl, tt)))),
    ((refl, (refl, (refl, tt))), ((refl, (refl, tt)), ((refl, tt), (tt, tt)))),
  ),
)

first_hangs : Hung results first_turn start collect_timeout six_mounts
unfolding get put start_call text_eq
first_hangs = inl (
    (
      refl,
      omega arith,
      inl (
          (
            refl,
            omega arith,
            inl (
                (
                  refl,
                  omega arith,
                  inl ((refl, omega arith, inl ((refl, omega arith, inr ((refl, omega arith)))))),
                )),
          )),
    ))

second_hangs :
    Hung results hangs (run results start (first_cycle ∷ [])).0 collect_timeout six_mounts
unfolding get put start_call text_eq run measure take_turn usage
second_hangs = (
  refl,
  refl,
  (refl, refl, (refl, refl, (refl, refl, (refl, refl, inl ((refl, omega arith, tt)))))),
)

run-dropped_example :
    (p : Text) × ((run results start (first_cycle ∷ [])).1 ≡ cut_at p ∷ [])
    × (parked_at p (run results start (first_cycle ∷ second_cycle ∷ [])).0.parked ≡ 2)
run-dropped_example =
    run-dropped results first_turn hangs six_mounts separate (omega arith) first_hangs second_hangs
