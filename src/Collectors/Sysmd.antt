-- ===== src/Collectors/Sysmd.antt =====
-- src/core/collectors/sysmd.rs: `parse` of the output of systemctl, and `collect` by how the command ends.
use blazebee.Base.{
  ℕ, Bool, Option, none, some, and_then, List, [], ◌∷◌, ◌++◌, Result, ok, err, if◌then◌else◌,
}
use blazebee.Base.Text.{Text, codes, is_empty, trim, trim_start_matches}
use blazebee.Base.Utf8.{from_utf8_lossy}
use blazebee.Error.{IoError}
use blazebee.Collectors.Error.{CollectorError}
use blazebee.Collectors.Procfs.{lines, is_ascii_whitespace}

pub record SystemdUnitStats : Type 0 where
  pub unit_name : Text
  pub load_state : Text
  pub active_state : Text
  pub sub_state : Text
  pub description : Text

-- A word, and what follows it.
unfoldable pub word : Text → Text × Text
word [] = ([], [])
word (c ∷ s) =
    let rest = word s in if is_ascii_whitespace c then ([], c ∷ s) else (c ∷ rest.0, rest.1)

-- One step of `split_ascii_whitespace`, with what is left.
unfoldable pub next : Text → Option (Text × Text)
next s =
    let parts = word (trim_start_matches is_ascii_whitespace s) in
    if is_empty parts.0 then none else some parts

-- A line; `none` is one of fewer than four fields.
unfoldable pub parse_line : Text → Option SystemdUnitStats
parse_line line = and_then (next line) (λ unit_name. and_then (next unit_name.1) (λ load_state.
    and_then (next load_state.1) (λ active_state. and_then (next active_state.1) (λ sub_state.
      some (record {
        unit_name = unit_name.0;
        load_state = load_state.0;
        active_state = active_state.0;
        sub_state = sub_state.0;
        description = trim sub_state.1;
      })))))

unfoldable pub parse_lines : List Text → List SystemdUnitStats
parse_lines [] = []
parse_lines (l ∷ ls) =
    let rest = parse_lines ls in elim (parse_line l) [ none ↦ rest | some s ↦ s ∷ rest ]

unfoldable pub parse : Text → List SystemdUnitStats
parse output = parse_lines (lines output)

-- How the wait for the command ends: at the deadline, with an error of the system, or with the command's status and
-- its text, its output and its messages.
pub data Ending : Type 0 where
  deadline : Ending
  failed : IoError → Ending
  finished : Bool → Text → List ℕ → List ℕ → Ending

abbrev command : Text
command = codes "systemctl"

unfoldable pub collect : Ending → Result CollectorError (List SystemdUnitStats)
collect deadline = err (CollectorError.command command (codes "did not finish within 5s"))
collect (failed e) = err (CollectorError.command command e.message)
collect (finished success status stdout stderr) =
    if success
    then ok (parse (from_utf8_lossy stdout))
    else err
        (CollectorError.command command (status ++ (codes ": " ++ trim (from_utf8_lossy stderr))))
