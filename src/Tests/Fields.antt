-- ===== src/Tests/Fields.antt =====
-- The examples of the unit tests of src/core/collectors, on the definitions.
use blazebee.Base.{◌≡◌, refl, [], ◌∷◌, ok, err}
use blazebee.Base.Text.{
  codes, text_eq, trim, trim_matches, trim_start_matches, trim_end_matches, is_whitespace,
}
use blazebee.Collectors.Error.{missing}
use blazebee.Collectors.Procfs.{
  lines, fields, pieces, parse_uint, parse_field, next_field, digits_value,
}
use blazebee.Collectors.Parsing.{
  parse_hex, hex_value, hex_field, parse_int, next_with, parse_with, pos,
}
use blazebee.Collectors.Procfs.Numbers.{print}
use blazebee.Collectors.Netstat
use blazebee.Collectors.Sockstat
use blazebee.Collectors.Ipvs
use blazebee.Collectors.Softnet
use blazebee.Collectors.Stat
use blazebee.Collectors.Ram
use blazebee.Collectors.Sysmd
use blazebee.Settings.Expand.{split_at}

netstat :
    Netstat.parse (codes "X: a b c\nX: 1 2\n")
    ≡ record { protocol = codes "X"; stat_name = codes "a"; value = 1 }
      ∷ record { protocol = codes "X"; stat_name = codes "b"; value = 2 }
      ∷ []
unfolding Netstat.parse Netstat.parse_lines Netstat.group Netstat.zip_entries lines fields pieces
    parse_uint digits_value trim_end_matches
netstat = refl

sockstat :
    Sockstat.parse (codes "TCP: inuse 4 alloc 133 mem\nsockets: used x")
    ≡ record { protocol = codes "TCP"; metric = codes "inuse"; value = 4 }
      ∷ record { protocol = codes "TCP"; metric = codes "alloc"; value = 133 }
      ∷ []
unfolding Sockstat.parse Sockstat.parse_lines Sockstat.pairs lines fields pieces parse_uint
    digits_value trim_end_matches
sockstat = refl

ipvs :
    Ipvs.parse (codes "t\nu\n 0000000A 00000014 0000001E 3E8 7D0\n")
    ≡ ok (record {
      connections = 10;
      incoming_packets = 20;
      outgoing_packets = 30;
      incoming_bytes = 1000;
      outgoing_bytes = 2000;
    })
unfolding Ipvs.parse Ipvs.hex_row hex_field parse_hex hex_value lines fields pieces
ipvs = refl

ipvs_short :
    Ipvs.parse (codes "a\nb\n")
    ≡ err (missing (codes "/proc/net/ip_vs_stats") (codes "totals line"))
unfolding Ipvs.parse lines
ipvs_short = refl

softnet :
    Softnet.parse (codes "0000000a 00000001 00000002\n")
    ≡ ok (
        record {
          cpu = codes "0";
          processed = 10;
          dropped = 1;
          time_squeeze = 2;
          received_rps = 0;
          flow_limit_count = 0;
        }
        ∷ [])
unfolding Softnet.parse Softnet.parse_lines Softnet.parse_line Softnet.hex hex_field parse_hex
    hex_value lines fields pieces print
softnet = refl

stat :
    Stat.parse (codes "btime 7\nprocesses 5\nintr 2 3\n")
    ≡ ok (record { boot_time = pos 7; total_forks = 5; total_interrupts = 2 })
unfolding Stat.parse Stat.take_lines Stat.take_line next_with parse_with parse_int next_field
    parse_field parse_uint digits_value text_eq lines fields pieces
stat = refl

stat_short :
    Stat.parse (codes "btime 1\nintr 2 3\n")
    ≡ err (missing (codes "/proc/stat") (codes "btime/processes/intr"))
unfolding Stat.parse Stat.take_lines Stat.take_line next_with parse_with parse_int next_field
    parse_field parse_uint digits_value text_eq lines fields pieces
stat_short = refl

ram :
    Ram.parse (codes "MemTotal:       1024 kB\nUnknown: 5 kB\n")
    ≡ ok (record Ram.no_stats { mem_total = 1024 })
unfolding Ram.parse Ram.take_lines Ram.take_line Ram.take_entry Ram.slot_of split_at parse_field
    parse_uint digits_value text_eq lines fields pieces
ram = refl

units :
    Sysmd.parse (codes "a.service loaded  active running  My  unit \nbad line\n")
    ≡ record {
      unit_name = codes "a.service";
      load_state = codes "loaded";
      active_state = codes "active";
      sub_state = codes "running";
      description = codes "My  unit";
    }
      ∷ []
unfolding Sysmd.parse Sysmd.parse_lines Sysmd.parse_line Sysmd.next Sysmd.word lines trim
    trim_matches trim_start_matches trim_end_matches is_whitespace
units = refl
