-- ===== src/Collectors/Arp.antt =====
-- src/core/collectors/arp.rs: `parse` of /proc/net/arp.
use blazebee.Base.{Option, none, some, List, [], ◌∷◌, drop}
use blazebee.Base.Text.{Text}
use blazebee.Collectors.Procfs.{lines, fields}

pub record ArpEntry : Type 0 where
  pub ip_address : Text
  pub hw_type : Text
  pub flags : Text
  pub hw_address : Text
  pub mask : Text
  pub device : Text

-- A line, by its fields; fewer than six give no entry.
unfoldable pub parse_line : List Text → Option ArpEntry
parse_line (ip ∷ hw_type ∷ flags ∷ hw ∷ mask ∷ device ∷ rest) = some (record {
  ip_address = ip;
  hw_type = hw_type;
  flags = flags;
  hw_address = hw;
  mask = mask;
  device = device;
})
parse_line _ = none

unfoldable pub parse_lines : List Text → List ArpEntry
parse_lines [] = []
parse_lines (l ∷ ls) =
    let rest = parse_lines ls in elim (parse_line (fields l)) [ none ↦ rest | some e ↦ e ∷ rest ]

unfoldable pub parse : Text → List ArpEntry
parse content = parse_lines (drop 1 (lines content))
