-- ===== src/Collectors/Pressure.antt =====
-- src/core/collectors/pressure.rs: `parse` of a file of /proc/pressure, and `collect` over the three of them. The
-- files and `f64` are arguments.
pub mod Errors
pub mod Resources
use blazebee.Base.{
  ℕ, ◌+◌, ◌==◌, Bool, true, false, Option, none, some, List, [], ◌∷◌, ◌++◌, if◌then◌else◌, Result,
  ok, err, ◌>>=◌,
}
use blazebee.Base.Text.{Text, codes, text_eq}
use blazebee.Error.{IoError, IoErrorKind, not_found}
use blazebee.Collectors.Error.{CollectorError, read, missing, unsupported}
use blazebee.Collectors.Procfs.{lines, fields, parse_field}
use blazebee.Collectors.Parsing.{F64, Files, parse_with}
use blazebee.Settings.Expand.{split_at}

abbrev pub resources : List (Text × Text)
resources =
    (codes "cpu", codes "/proc/pressure/cpu")
    ∷ (codes "memory", codes "/proc/pressure/memory")
    ∷ (codes "io", codes "/proc/pressure/io")
    ∷ []

pub record PressureStats (F : Type 0) : Type 0 where
  pub metric_type : Text
  pub some_avg10 : F
  pub some_avg60 : F
  pub some_avg300 : F
  pub some_total_us : ℕ
  pub full_avg10 : Option F
  pub full_avg60 : Option F
  pub full_avg300 : Option F
  pub full_total_us : Option ℕ

-- The averages and the total of one line.
pub record Figures (F : Type 0) : Type 0 where
  pub avg10 : F
  pub avg60 : F
  pub avg300 : F
  pub total : ℕ

abbrev pub is_not_found : IoError → Bool
is_not_found e = elim e.kind [ not_found ↦ true | _ ↦ false ]

module _ {F : Type 0} (f64 : F64 F) where
  abbrev pub no_figures : Figures F
  no_figures = record {
    avg10 = f64.zero_value;
    avg60 = f64.zero_value;
    avg300 = f64.zero_value;
    total = 0;
  }

  abbrev pub no_stats : Text → PressureStats F
  no_stats metric_type = record {
    metric_type = metric_type;
    some_avg10 = f64.zero_value;
    some_avg60 = f64.zero_value;
    some_avg300 = f64.zero_value;
    some_total_us = 0;
    full_avg10 = none;
    full_avg60 = none;
    full_avg300 = none;
    full_total_us = none;
  }

  -- The match on a token's key.
  unfoldable pub set_figure : Text → Figures F → Text → Text → Result CollectorError (Figures F)
  set_figure path g key value =
      if text_eq key (codes "avg10")
      then (parse_with f64.from_str value path (codes "avg10") >>= λ x. ok (record g { avg10 = x }))
      else if text_eq key (codes "avg60")
      then (parse_with f64.from_str value path (codes "avg60") >>= λ x. ok (record g { avg60 = x }))
      else if text_eq key (codes "avg300")
      then (parse_with f64.from_str value path (codes "avg300") >>= λ x.
          ok (record g { avg300 = x }))
      else if text_eq key (codes "total")
      then (parse_field 64 value path (codes "total") >>= λ n. ok (record g { total = n }))
      else ok g

  unfoldable pub take_token : Text → Figures F → Text → Result CollectorError (Figures F)
  take_token path g token = elim (split_at b'=' token) [
    | none ↦ ok g
    | some parts ↦ set_figure path g parts.0 parts.1
  ]

  unfoldable pub take_tokens : Text → Figures F → List Text → Result CollectorError (Figures F)
  take_tokens path g [] = ok g
  take_tokens path g (t ∷ ts) = take_token path g t >>= λ g'. take_tokens path g' ts

  -- The statistics so far, and whether a `some` line was seen.
  abbrev pub Seen : Type 0
  Seen = PressureStats F × Bool

  -- The match on a line's first field.
  unfoldable pub put_figures : Text → Figures F → Seen → Seen
  put_figures kind g (s, seen) =
      if text_eq kind (codes "some")
      then (
        record s {
          some_avg10 = g.avg10;
          some_avg60 = g.avg60;
          some_avg300 = g.avg300;
          some_total_us = g.total;
        },
        true,
      )
      else if text_eq kind (codes "full")
      then (
        record s {
          full_avg10 = some g.avg10;
          full_avg60 = some g.avg60;
          full_avg300 = some g.avg300;
          full_total_us = some g.total;
        },
        seen,
      )
      else (s, seen)

  -- A line, by its fields.
  unfoldable pub take_line : Text → Seen → List Text → Result CollectorError Seen
  take_line path t [] = ok t
  take_line path t (kind ∷ tokens) =
      take_tokens path no_figures tokens >>= λ g. ok (put_figures kind g t)

  unfoldable pub take_lines : Text → Seen → List Text → Result CollectorError Seen
  take_lines path t [] = ok t
  take_lines path t (l ∷ ls) = take_line path t (fields l) >>= λ t'. take_lines path t' ls

  unfoldable pub parse : Text → Text → Text → Result CollectorError (PressureStats F)
  parse metric_type path content = do
    t ← take_lines path (no_stats metric_type, false) (lines content)
    if t.1 then ok t.0 else err (missing path (codes "some line"))

  -- The loop of `collect`, with the number of files that do not exist.
  unfoldable pub take_resources :
      Files
      → List (PressureStats F)
      → ℕ
      → List (Text × Text)
      → Result CollectorError (List (PressureStats F) × ℕ)
  take_resources files stats absent [] = ok (stats, absent)
  take_resources files stats absent ((metric_type, path) ∷ rs) = elim (files path) [
    | ok content ↦ elim (parse metric_type path content) [
      | err e ↦ err e
      | ok s ↦ take_resources files (stats ++ (s ∷ [])) absent rs
    ]
    | err e ↦
        let rest = take_resources files stats (absent + 1) rs in
        if is_not_found e then rest else err (read path e)
  ]

  -- The end of `collect`.
  unfoldable pub conclude :
      List (PressureStats F) × ℕ → Result CollectorError (List (PressureStats F))
  conclude r =
      if r.1 == 3
      then err (
          unsupported
            (codes "pressure stall information is not available (CONFIG_PSI or psi=1 missing)"))
      else ok r.0

  unfoldable pub collect : Files → Result CollectorError (List (PressureStats F))
  collect files = take_resources files [] 0 resources >>= conclude
