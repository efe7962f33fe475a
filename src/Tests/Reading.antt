-- ===== src/Tests/Reading.antt =====
-- Files of /proc as the collectors read them (src/core/collectors).
use blazebee.Base.{List, map, some, ◌≡◌, refl, [], ◌∷◌, ok, arith, All, ◌==◌, ◌||◌}
use blazebee.Base.Text.{Text, codes}
use blazebee.Base.Utf8.{as_bytes, from_utf8}
use blazebee.Framer.{Bytes}
use blazebee.Collectors.Procfs.Reading.{contents, read_into, Appended, read_into-Appended}
use blazebee.Collectors.Procfs.{
  unescape_mount_field, lines, fields, pieces, next_field, parse_field, parse_uint, digits_value,
}
use blazebee.Collectors.Procfs.Mounts.{seq_escape, unescape_mount_field-seq_escape}
use blazebee.Collectors.Counters.{required}
use blazebee.Collectors.Cpu.{parse_lines}
use blazebee.Collectors.Disk.{DiskStats, parse, parse_line}
use blazebee.Collectors.Disk
use blazebee.Collectors.Vmstat
use blazebee.Collectors.Vmstat.{VmstatEntry, IsCounter}

-- A mount point with a blank.
abbrev disk_name : Text
disk_name = codes "my disk"

abbrev disk_field : Text
disk_field = codes "my\\040disk"

field_bytes : as_bytes disk_field ≡ seq_escape (λ b. b == 32 || b == b'\\') (as_bytes disk_name)
unfolding as_bytes seq_escape
field_bytes = refl

unescape_mount_field-seq_escape_example : unescape_mount_field disk_field ≡ disk_name
unescape_mount_field-seq_escape_example =
    unescape_mount_field-seq_escape (λ b. b == 32 || b == b'\\') disk_field disk_name refl
      (omega arith) (omega arith) field_bytes

-- A file in two reads, of which the first ends within a character.
abbrev chunks : List Bytes
chunks = (b'a' ∷ 0xC3 ∷ []) ∷ (0xA9 ∷ []) ∷ [] ∷ []

read_into-Appended_example :
    Appended
      (codes "x")
      (from_utf8 (contents chunks))
      (read_into 8192 (ok (map ok chunks)) (codes "x"))
read_into-Appended_example = read_into-Appended 8192 chunks (codes "x") (omega arith)

decodes : from_utf8 (contents chunks) ≡ some (codes "aé")
unfolding from_utf8 contents
decodes = refl

abbrev disk : DiskStats
disk = record {
  device = codes "vda";
  reads_completed = 1;
  reads_merged = 2;
  read_bytes = 1536;
  read_time_ms = 4;
  writes_completed = 5;
  writes_merged = 6;
  written_bytes = 3584;
  write_time_ms = 8;
  io_in_progress = 9;
  io_time_ms = 10;
  weighted_io_time_ms = 11;
}

reads : parse (codes " 8 0 vda 1 2 3 4 5 6 7 8 9 10 11 12\n") ≡ ok (disk ∷ [])
unfolding parse Disk.parse_lines parse_line lines fields pieces required next_field parse_field
    parse_uint digits_value
reads = refl

abbrev counters : List VmstatEntry
counters =
    record { key = codes "nr_free_pages"; value = 42 }
    ∷ record { key = codes "pgfault"; value = 7 }
    ∷ []

are_counters : All IsCounter counters
are_counters = (
  record {
    word = (
      refl,
      (
        refl,
        (refl, (refl, (refl, (refl, (refl, (refl, (refl, (refl, (refl, (refl, (refl, tt))))))))))),
      ),
    );
    named = refl;
    fits = omega arith;
  },
  (
    record {
      word = (refl, (refl, (refl, (refl, (refl, (refl, (refl, tt)))))));
      named = refl;
      fits = omega arith;
    },
    tt,
  ),
)

parse-print_example : Vmstat.parse (Vmstat.print counters) ≡ counters
parse-print_example = Vmstat.parse-print counters are_counters
