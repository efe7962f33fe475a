-- ===== src/Collectors/Search.antt =====
-- The searches of Rust's `str` that src/core/collectors uses.
use blazebee.Base.{Bool, Option, none, some, [], ◌∷◌, is_some, ℕ}
use blazebee.Base.Text.{Text, is_whitespace, trim_start_matches}
use blazebee.Settings.Expand.{strip_prefix, split_at}

abbrev pub starts_with : Text → Text → Bool
starts_with prefix s = is_some (strip_prefix prefix s)

-- `str::find` of a text: what stands before its first occurrence, and after it.
unfoldable pub find : Text → Text → Option (Text × Text)
find pattern [] = elim (strip_prefix pattern []) [ none ↦ none | some after ↦ some ([], after) ]
find pattern (c ∷ s) = elim (strip_prefix pattern (c ∷ s)) [
  | some after ↦ some ([], after)
  | none ↦ elim (find pattern s) [ none ↦ none | some parts ↦ some (c ∷ parts.0, parts.1) ]
]

-- `str::contains` of a text
abbrev pub contains_text : Text → Text → Bool
contains_text pattern s = is_some (find pattern s)

abbrev pub trim_start : Text → Text
trim_start s = trim_start_matches is_whitespace s

-- `split(c).next()`
abbrev pub before : ℕ → Text → Text
before c s = elim (split_at c s) [ none ↦ s | some parts ↦ parts.0 ]
