-- ===== src/Collectors/Vmstat.antt =====
-- src/core/collectors/vmstat.rs: `parse` of /proc/vmstat.
use blazebee.Base.{
  ℕ, ◌^◌, ◌<◌, ◌≡◌, refl, ap, ◌∙◌, false, Option, some, none, List, [], ◌∷◌, ◌++◌, All, All-append,
}
use blazebee.Base.Text.{Text, is_empty}
use blazebee.Collectors.Procfs.{lines, fields, non_empty, parse_uint}
use blazebee.Collectors.Procfs.Numbers.{
  decimal, parse_uint-decimal, IsWord, IsLine, pieces_word, pieces_last, decimal-IsWord, lines-line,
  word-IsLine,
}

pub record VmstatEntry : Type 0 where
  pub key : Text
  pub value : ℕ

-- A line, by its fields; `none` is a line that does not look like a name and a value.
unfoldable pub parse_line : List Text → Option VmstatEntry
parse_line [] = none
parse_line (key ∷ []) = none
parse_line (key ∷ value ∷ rest) = elim (parse_uint 64 value) [
  | none ↦ none
  | some n ↦ some (record { key = key; value = n })
]

-- `filter_map` over the lines.
unfoldable pub parse_lines : List Text → List VmstatEntry
parse_lines [] = []
parse_lines (l ∷ ls) =
    let rest = parse_lines ls in elim (parse_line (fields l)) [ none ↦ rest | some e ↦ e ∷ rest ]

unfoldable pub parse : Text → List VmstatEntry
parse content = parse_lines (lines content)

-- A counter as the kernel has it: a name without blanks, and a u64.
pub record IsCounter (e : VmstatEntry) : Type 0 where
  pub word : IsWord e.key
  pub named : is_empty e.key ≡ false
  pub fits : e.value < 2 ^ 64

abbrev line_of : VmstatEntry → Text
line_of e = e.key ++ (32 ∷ decimal e.value)

-- The kernel's file: a line for each counter.
unfoldable pub print : List VmstatEntry → Text
print [] = []
print (e ∷ es) = line_of e ++ (10 ∷ print es)

fields-line_of : (e : VmstatEntry) → IsCounter e → fields (line_of e) ≡ e.key ∷ decimal e.value ∷ []
unfolding fields
fields-line_of e h =
    let (w, f) = decimal-IsWord e.value in
    ap non_empty (
      pieces_word e.key 32 (decimal e.value) h.word refl
      ∙ ap (λ ps. e.key ∷ ps) (pieces_last (decimal e.value) w))
    ∙ rw (non_empty, h.named, f) refl

line_of-IsLine : (e : VmstatEntry) → IsCounter e → IsLine (line_of e)
line_of-IsLine e h =
    All-append _ e.key (32 ∷ decimal e.value) (word-IsLine e.key h.word)
      ((refl, refl), word-IsLine (decimal e.value) (decimal-IsWord e.value).0)

parse_nil : parse [] ≡ []
unfolding parse lines parse_lines
parse_nil = refl

-- Reading what the kernel prints gives back every counter, in order.
pub parse-print : (es : List VmstatEntry) → All IsCounter es → parse (print es) ≡ es
unfolding parse parse_lines parse_line print
parse-print [] h = parse_nil
parse-print (e ∷ es) h =
    rw
      (
        lines-line (line_of e) (print es) (line_of-IsLine e h.0),
        parse_lines,
        parse_line,
        fields-line_of e h.0,
        parse_uint-decimal 64 e.value h.0.fits,
        parse-print es h.1,
      )
      refl
