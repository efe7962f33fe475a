-- ===== src/Collectors/Network.antt =====
-- src/core/collectors/network.rs: `parse` of /proc/net/dev.
pub mod Columns
use blazebee.Base.{ℕ, Option, none, some, List, [], ◌∷◌, ◌++◌, drop, Result, ok, err, if◌then◌else◌}
use blazebee.Base.Text.{Text, codes, is_empty, trim}
use blazebee.Collectors.Error.{CollectorError}
use blazebee.Collectors.Procfs.{lines, fields}
use blazebee.Collectors.Counters.{slot, required}
use blazebee.Settings.Expand.{split_at}

abbrev pub path : Text
path = codes "/proc/net/dev"

abbrev pub rx_names : List Text
rx_names =
    codes "rx_bytes"
    ∷ codes "rx_packets"
    ∷ codes "rx_errs"
    ∷ codes "rx_drop"
    ∷ codes "rx_fifo"
    ∷ codes "rx_frame"
    ∷ codes "rx_compressed"
    ∷ codes "rx_multicast"
    ∷ []

abbrev pub tx_names : List Text
tx_names = codes "tx_bytes" ∷ codes "tx_packets" ∷ codes "tx_errs" ∷ codes "tx_drop" ∷ []

pub record NetworkStats : Type 0 where
  pub interface : Text
  pub receive_bytes : ℕ
  pub receive_packets : ℕ
  pub receive_errors : ℕ
  pub receive_drops : ℕ
  pub transmit_bytes : ℕ
  pub transmit_packets : ℕ
  pub transmit_errors : ℕ
  pub transmit_drops : ℕ

abbrev pub stats_of : Text → List ℕ → List ℕ → NetworkStats
stats_of interface rx tx = record {
  interface = interface;
  receive_bytes = slot rx 0;
  receive_packets = slot rx 1;
  receive_errors = slot rx 2;
  receive_drops = slot rx 3;
  transmit_bytes = slot tx 0;
  transmit_packets = slot tx 1;
  transmit_errors = slot tx 2;
  transmit_drops = slot tx 3;
}

-- The counters of one interface.
unfoldable pub parse_counters : Text → List Text → Result CollectorError NetworkStats
parse_counters interface fs = elim (required path rx_names fs) [
  | err e ↦ err e
  | ok rx ↦ elim (required path tx_names rx.1) [
    | err e ↦ err e
    | ok tx ↦ ok (stats_of interface rx.0 tx.0)
  ]
]

-- A line; `none` is one that the loop passes over.
unfoldable pub parse_line : Text → Option (Result CollectorError NetworkStats)
parse_line line = elim (split_at b':' line) [
  | none ↦ none
  | some parts ↦
      if is_empty (trim parts.0)
      then none
      else some (parse_counters (trim parts.0) (fields parts.1))
]

unfoldable pub parse_lines : List Text → Result CollectorError (List NetworkStats)
parse_lines [] = ok []
parse_lines (l ∷ ls) = elim (parse_line l) [
  | none ↦ parse_lines ls
  | some (err e) ↦ err e
  | some (ok s) ↦ elim (parse_lines ls) [ err e ↦ err e | ok rest ↦ ok (s ∷ rest) ]
]

unfoldable pub parse : Text → Result CollectorError (List NetworkStats)
parse content = parse_lines (drop 2 (lines content))
