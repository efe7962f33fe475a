-- ===== src/Tests/Counting.antt =====
-- More files of /proc as the collectors read them (src/core/collectors).
use blazebee.Base.{
  ℕ, ◌/◌, ◌≡◌, refl, arith, true, [], ◌∷◌, map, none, some, ok, err, All, Option, Result,
  if◌then◌else◌,
}
use blazebee.Base.Text.{
  Text, codes, contains, is_whitespace, trim, trim_matches, trim_start_matches, trim_end_matches,
  text_eq,
}
use blazebee.Error.{IoError, not_found}
use blazebee.Collectors.Procfs.{lines, fields, pieces, parse_uint, digits_value}
use blazebee.Collectors.Network
use blazebee.Collectors.Network.Columns.{Interface, IsInterface, print, reported, parse-columns}
use blazebee.Collectors.Mdraid
use blazebee.Collectors.Mdraid.Arrays.{IsArray, parse-IsArray}
use blazebee.Collectors.Search.{find}
use blazebee.Settings.Expand.{strip_prefix, split_at}
use blazebee.Collectors.Parsing.{F64, Files, Reals, ℤ, pos, negsuc}
use blazebee.Collectors.Sysfs.{Tree}
use blazebee.Collectors.Thermal.{read_zones}
use blazebee.Collectors.Thermal.Zones.{IsReport, read_zones-IsReport}
use blazebee.Collectors.Pressure.{collect, resources}
use blazebee.Collectors.Pressure.Resources.{Reports, collect-Reports}

abbrev loopback : Interface
loopback = record {
  name = codes "lo";
  received = 344 ∷ 4 ∷ 0 ∷ 0 ∷ 0 ∷ 0 ∷ 0 ∷ 0 ∷ [];
  sent_first = 132 ∷ 2 ∷ 0 ∷ 0 ∷ [];
  sent_last = 0 ∷ 0 ∷ 0 ∷ 0 ∷ [];
}

is_interface : IsInterface loopback
unfolding is_whitespace
is_interface = record {
  named = refl;
  tight = (refl, (refl, tt));
  no_colon = (refl, (refl, tt));
  receives = refl;
  sends = refl;
  received_u64 = omega arith;
  sent_u64 = omega arith;
}

parse-columns_example :
    Network.parse (print (codes "I") (codes "f") (loopback ∷ []))
    ≡ ok (map reported (loopback ∷ []))
parse-columns_example =
    parse-columns (codes "I") (codes "f") (loopback ∷ []) ((refl, refl), tt) ((refl, refl), tt)
      (is_interface, tt)

abbrev percent : Text → Option ℕ
percent s = parse_uint 8 s

abbrev mdstat : Text
mdstat =
    codes
      "Personalities : [raid1]\nmd0 : active raid1 sdb1[1] sda1[0](F)\n      97 blocks super 1.2 [2/1] [U_]\n      [>....]  recovery =  5% (1/20)\n"

parse-IsArray_example : All IsArray (Mdraid.parse percent mdstat)
parse-IsArray_example = parse-IsArray percent mdstat

abbrev whole : F64 ℕ
whole = record {
  from_str = λ s. parse_uint 64 s;
  zero_value = 0;
  sub = λ a b. a;
  floor_i64 = λ a. pos a;
}

-- Only the file for the CPU exists.
abbrev files : Files
files path =
    if text_eq path (codes "/proc/pressure/cpu")
    then ok (codes "some avg10=1 avg60=2 avg300=3 total=4\n")
    else err (record { kind = not_found; message = codes "No such file or directory" })

collect-Reports_example : Reports whole files resources (collect whole files)
collect-Reports_example = collect-Reports whole files

reads :
    Mdraid.parse percent mdstat
    ≡ record {
      device = codes "md0";
      level = codes "raid1";
      state = codes "active";
      active_devices = 1;
      total_devices = 2;
      failed_devices = 1;
      spare_devices = 0;
      degraded = true;
      sync_action = some (codes "recovery");
      sync_progress = some 5;
    }
      ∷ []
unfolding Mdraid.parse Mdraid.parse_lines Mdraid.is_heading Mdraid.new_array Mdraid.take_tokens
    Mdraid.take_token Mdraid.is_level Mdraid.amend Mdraid.geometry Mdraid.take_action lines fields
    pieces find strip_prefix split_at contains text_eq parse_uint digits_value trim trim_matches
    trim_start_matches trim_end_matches is_whitespace
reads = refl

-- Two zones, one of which cannot be read now.
abbrev tree : Tree
tree = record {
  read_dir = λ path. ok (some (codes "thermal_zone1") ∷ none ∷ some (codes "thermal_zone0") ∷ []);
  files = λ path.
      if text_eq path (codes "/t/thermal_zone0/temp") then ok (codes "41000\n") else missing;
}
  where
    missing : Result IoError Text
    missing = err (record { kind = not_found; message = [] })

-- Whole degrees, rounded down, for what is not negative.
abbrev whole_degrees : Reals ℕ
whole_degrees = record { of_i64 = at_least_zero; div = λ a b. a / b }
  where
    at_least_zero : ℤ → ℕ
    at_least_zero (pos n) = n
    at_least_zero (negsuc n) = 0

read_zones-IsReport_example :
    IsReport whole_degrees tree
      (codes "/t")
      (tree.read_dir (codes "/t"))
      (read_zones whole_degrees tree (codes "/t"))
read_zones-IsReport_example = read_zones-IsReport whole_degrees tree (codes "/t")
