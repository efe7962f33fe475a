-- ===== src/Collectors/Powerstat.antt =====
-- src/core/collectors/powerstat.rs: `read_supplies`.
use blazebee.Base.{ℕ, Option, none, some, List, Result, ok, err}
use blazebee.Base.Text.{Text, codes}
use blazebee.Collectors.Error.{CollectorError, read}
use blazebee.Collectors.Procfs.{parse_uint}
use blazebee.Collectors.Parsing.{read_trimmed}
use blazebee.Collectors.Sysfs.{Tree, join, text_or_empty, text_le, sort, names_in, rows}

pub record PowerStats : Type 0 where
  pub name : Text
  pub supply_type : Text
  pub status : Text
  pub online : Option ℕ
  pub capacity_percent : Option ℕ
  pub energy_now : Option ℕ
  pub energy_full : Option ℕ
  pub power_now : Option ℕ
  pub charge_now : Option ℕ
  pub charge_full : Option ℕ
  pub current_now : Option ℕ
  pub voltage_now : Option ℕ

module _ (tree : Tree) where
  -- `number` at a `w`-bit integer
  unfoldable pub number : ℕ → Text → Text → Option ℕ
  number w dir file = elim (read_trimmed tree.files (join dir file)) [
    | err e ↦ none
    | ok s ↦ parse_uint w s
  ]

  unfoldable pub supply : Text → Text → PowerStats
  supply root name =
      let dir = join root name in
      record {
        name = name;
        supply_type = text_or_empty tree (join dir (codes "type"));
        status = text_or_empty tree (join dir (codes "status"));
        online = number 8 dir (codes "online");
        capacity_percent = number 8 dir (codes "capacity");
        energy_now = number 64 dir (codes "energy_now");
        energy_full = number 64 dir (codes "energy_full");
        power_now = number 64 dir (codes "power_now");
        charge_now = number 64 dir (codes "charge_now");
        charge_full = number 64 dir (codes "charge_full");
        current_now = number 64 dir (codes "current_now");
        voltage_now = number 64 dir (codes "voltage_now");
      }

  unfoldable pub read_supplies : Text → Result CollectorError (List PowerStats)
  read_supplies root = elim (tree.read_dir root) [
    | err e ↦ err (read root e)
    | ok entries ↦ ok (
        sort (λ a b. text_le a.name b.name)
          (rows (λ name. some (supply root name)) (names_in entries)))
  ]
