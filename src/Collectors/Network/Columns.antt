-- ===== src/Collectors/Network/Columns.antt =====
-- The columns of /proc/net/dev that src/core/collectors/network.rs reports, against the file as the kernel prints it.
use blazebee.Base.{
  ℕ, ◌-◌, ◌^◌, ◌<◌, ◌≡◌, refl, false, ◌==◌, some, suc, zero, List, [], ◌∷◌, ◌++◌, map, length, ok,
  arith, All, All-append,
}
use mathlib.Core.List.{map-append}
use blazebee.Base.Text.{Text, is_empty, is_whitespace}
use blazebee.Collectors.Procfs.{lines}
use blazebee.Collectors.Procfs.Numbers.{decimal, IsLine, lines-line}
use blazebee.Collectors.Procfs.Rows.{
  blanks, padded, row, fields-row, row-IsLine, padded-IsLine, required-decimal, IsTight,
  trim-padded,
}
use blazebee.Collectors.Network.{
  NetworkStats, path, rx_names, tx_names, stats_of, parse_counters, parse_line, parse_lines, parse,
}
use blazebee.Settings.Expand.{split_at}

-- An interface as the kernel has it: eight counters of what it received and eight of what it sent.
pub record Interface : Type 0 where
  pub name : Text
  pub received : List ℕ
  pub sent_first : List ℕ
  pub sent_last : List ℕ

-- A name has no colon and no white space.
pub record IsInterface (i : Interface) : Type 0 where
  pub named : is_empty i.name ≡ false
  pub tight : IsTight i.name
  pub no_colon : All (λ c. (c == b':') ≡ false) i.name
  pub receives : length i.received ≡ 8
  pub sends : length i.sent_first ≡ 4
  pub received_u64 : All (λ n. n < 2 ^ 64) i.received
  pub sent_u64 : All (λ n. n < 2 ^ 64) i.sent_first

-- The widths of the sixteen columns.
abbrev widths : List ℕ
widths = 7 ∷ 7 ∷ 4 ∷ 4 ∷ 4 ∷ 5 ∷ 10 ∷ 9 ∷ 8 ∷ 7 ∷ 4 ∷ 4 ∷ 4 ∷ 5 ∷ 7 ∷ 10 ∷ []

abbrev columns : Interface → List ℕ
columns i = i.received ++ (i.sent_first ++ i.sent_last)

-- `%6s:` and the columns.
abbrev line_of : Interface → Text
line_of i = padded 6 i.name ++ (b':' ∷ row widths (columns i))

abbrev print_all : List Interface → Text
print_all [] = []
print_all (i ∷ is) = line_of i ++ (10 ∷ print_all is)

-- The file: two lines of headings, then a line for each interface.
unfoldable pub print : Text → Text → List Interface → Text
print first second is = first ++ (10 ∷ (second ++ (10 ∷ print_all is)))

split_at-colon :
    (s t : Text) → All (λ c. (c == b':') ≡ false) s → split_at b':' (s ++ (b':' ∷ t)) ≡ some (s, t)
unfolding split_at
split_at-colon [] t h = refl
split_at-colon (c ∷ s) t h = rw (split_at, h.0, split_at-colon s t h.1) refl

blanks-no_colon : (n : ℕ) → All (λ c. (c == b':') ≡ false) (blanks n)
blanks-no_colon zero = tt
blanks-no_colon (suc n) = (refl, blanks-no_colon n)

tight-IsLine : (w : Text) → IsTight w → IsLine w
unfolding is_whitespace
tight-IsLine [] h = tt
tight-IsLine (c ∷ w) h = ((ground (arith, h.0), ground (arith, h.0)), tight-IsLine w h.1)

line_of-IsLine : (i : Interface) → IsInterface i → IsLine (line_of i)
line_of-IsLine i h =
    All-append _ (padded 6 i.name) _ (padded-IsLine 6 i.name (tight-IsLine i.name h.tight))
      ((refl, refl), row-IsLine widths (columns i))

parse_counters-columns :
    (i : Interface)
    → IsInterface i
    → parse_counters i.name (map decimal (columns i)) ≡ ok (stats_of i.name i.received i.sent_first)
unfolding parse_counters
parse_counters-columns i h =
    rw
      (
        map-append decimal i.received (i.sent_first ++ i.sent_last),
        map-append decimal i.sent_first i.sent_last,
        parse_counters,
        required-decimal path rx_names i.received
            (map decimal i.sent_first ++ map decimal i.sent_last) (omega (arith, h.receives))
            h.received_u64,
        required-decimal path tx_names i.sent_first (map decimal i.sent_last)
            (omega (arith, h.sends)) h.sent_u64,
      )
      refl

parse_line-line_of :
    (i : Interface)
    → IsInterface i
    → parse_line (line_of i) ≡ some (ok (stats_of i.name i.received i.sent_first))
unfolding parse_line
parse_line-line_of i h =
    rw
      (
        parse_line,
        split_at-colon (padded 6 i.name) (row widths (columns i)) (
            All-append _ (blanks (6 - length i.name)) i.name (blanks-no_colon (6 - length i.name))
              h.no_colon),
        trim-padded 6 i.name h.tight,
        h.named,
        fields-row widths (columns i),
        parse_counters-columns i h,
      )
      refl

abbrev pub reported : Interface → NetworkStats
reported i = stats_of i.name i.received i.sent_first

parse_lines-print :
    (is : List Interface)
    → All IsInterface is
    → parse_lines (lines (print_all is)) ≡ ok (map reported is)
unfolding parse_lines lines
parse_lines-print [] h = refl
parse_lines-print (i ∷ is) h =
    rw
      (
        lines-line (line_of i) (print_all is) (line_of-IsLine i h.0),
        parse_lines,
        parse_line-line_of i h.0,
        parse_lines-print is h.1,
      )
      refl

-- From the file that the kernel prints, whatever its two headings, every interface is reported in order, with the
-- first four counters of what it received and the first four of what it sent.
pub parse-columns :
    (first second : Text) (is : List Interface)
    → IsLine first
    → IsLine second
    → All IsInterface is
    → parse (print first second is) ≡ ok (map reported is)
unfolding parse print
parse-columns first second is one two h =
    rw
      (
        lines-line first (second ++ (10 ∷ print_all is)) one,
        lines-line second (print_all is) two,
        parse_lines-print is h,
      )
      refl
