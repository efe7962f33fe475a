-- ===== src/Collectors/Procfs/Rows.antt =====
-- Columns of numbers as the kernel prints them, each right-aligned in a width, against `fields` of
-- src/core/collectors/procfs.rs and the reading of counters.
use blazebee.Base.{
  ℕ, zero, suc, ◌-◌, ◌^◌, ◌<◌, ◌≡◌, refl, ap, ◌∙◌, true, false, List, [], ◌∷◌, ◌++◌, map,
  append_assoc, append-nil, length, ok, arith, All, All-append,
}
use blazebee.Base.Text.{
  Text, is_empty, is_whitespace, trim, trim_matches, trim_start_matches, trim_end_matches,
}
use blazebee.Collectors.Procfs.{fields, pieces, non_empty, is_ascii_whitespace}
use blazebee.Collectors.Procfs.Numbers.{
  decimal, IsWord, IsLine, pieces_word, pieces_last, decimal-IsWord, word-IsLine,
  next_field-decimal,
}
use blazebee.Collectors.Counters.{required}

-- `%*llu`: as many blanks as are missing.
abbrev pub blanks : ℕ → Text
blanks zero = []
blanks (suc n) = 32 ∷ blanks n

abbrev pub padded : ℕ → Text → Text
padded width w = blanks (width - length w) ++ w

-- A blank and a number for each column; columns without a width are not padded.
unfoldable pub row : List ℕ → List ℕ → Text
row ws [] = []
row [] (n ∷ ns) = 32 ∷ (decimal n ++ row [] ns)
row (w ∷ ws) (n ∷ ns) = 32 ∷ (padded w (decimal n) ++ row ws ns)

-- What ends a word.
abbrev IsEnd : Text → Type 0
IsEnd [] = Unit
IsEnd (c ∷ s) = is_ascii_whitespace c ≡ true

row-IsEnd : (ws ns : List ℕ) → IsEnd (row ws ns)
unfolding row
row-IsEnd ws [] = tt
row-IsEnd [] (n ∷ ns) = refl
row-IsEnd (w ∷ ws) (n ∷ ns) = refl

fields_nil : fields [] ≡ []
unfolding fields pieces
fields_nil = refl

fields_blank : (s : Text) → fields (32 ∷ s) ≡ fields s
unfolding fields pieces
fields_blank s = refl

fields-blanks : (n : ℕ) (s : Text) → fields (blanks n ++ s) ≡ fields s
fields-blanks zero s = refl
fields-blanks (suc n) s = fields_blank (blanks n ++ s) ∙ fields-blanks n s

fields_word :
    (w s : Text) → IsWord w → is_empty w ≡ false → IsEnd s → fields (w ++ s) ≡ w ∷ fields s
unfolding fields pieces
fields_word w [] h full e =
    rw (append-nil w) (ap non_empty (pieces_last w h) ∙ rw (non_empty, full) refl)
fields_word w (c ∷ s) h full e =
    ap non_empty (pieces_word w c s h e) ∙ rw (non_empty, full, pieces, e) refl

-- A row is read as its numbers.
pub fields-row : (ws ns : List ℕ) → fields (row ws ns) ≡ map decimal ns
unfolding row
fields-row ws [] = fields_nil
fields-row [] (n ∷ ns) =
    let (word, full) = decimal-IsWord n in
    fields_blank (decimal n ++ row [] ns)
    ∙ fields_word (decimal n) (row [] ns) word full (row-IsEnd [] ns)
    ∙ ap (λ fs. decimal n ∷ fs) (fields-row [] ns)
fields-row (w ∷ ws) (n ∷ ns) =
    let (word, full) = decimal-IsWord n in
    let gap = w - length (decimal n) in
    fields_blank (padded w (decimal n) ++ row ws ns)
    ∙ ap fields (append_assoc (blanks gap) (decimal n) (row ws ns))
    ∙ fields-blanks gap (decimal n ++ row ws ns)
    ∙ fields_word (decimal n) (row ws ns) word full (row-IsEnd ws ns)
    ∙ ap (λ fs. decimal n ∷ fs) (fields-row ws ns)

blanks-IsLine : (n : ℕ) → IsLine (blanks n)
blanks-IsLine zero = tt
blanks-IsLine (suc n) = ((refl, refl), blanks-IsLine n)

pub padded-IsLine : (width : ℕ) (w : Text) → IsLine w → IsLine (padded width w)
padded-IsLine width w h =
    All-append _ (blanks (width - length w)) w (blanks-IsLine (width - length w)) h

pub row-IsLine : (ws ns : List ℕ) → IsLine (row ws ns)
unfolding row
row-IsLine ws [] = tt
row-IsLine [] (n ∷ ns) = (
  (refl, refl),
  All-append _ (decimal n) (row [] ns) (word-IsLine (decimal n) (decimal-IsWord n).0)
      (row-IsLine [] ns),
)
row-IsLine (w ∷ ws) (n ∷ ns) = (
  (refl, refl),
  All-append _ (padded w (decimal n)) (row ws ns)
      (padded-IsLine w (decimal n) (word-IsLine (decimal n) (decimal-IsWord n).0))
      (row-IsLine ws ns),
)

-- Printed counters are read back, and the fields after them are left.
pub required-decimal :
    (path : Text) (names : List Text) (ns : List ℕ) (rest : List Text)
    → length names ≡ length ns
    → All (λ n. n < 2 ^ 64) ns
    → required path names (map decimal ns ++ rest) ≡ ok (ns, rest)
unfolding required
required-decimal path [] [] rest same small = refl
required-decimal path [] (n ∷ ns) rest same small = absurd (omega arith)
required-decimal path (what ∷ names) [] rest same small = absurd (omega arith)
required-decimal path (what ∷ names) (n ∷ ns) rest same small =
    rw
      (
        required,
        next_field-decimal 64 n (map decimal ns ++ rest) path what small.0,
        required-decimal path names ns rest (omega arith) small.1,
      )
      refl

abbrev pub IsTight : Text → Type 0
IsTight w = All (λ c. is_whitespace c ≡ false) w

trim_end-tight : (w : Text) → IsTight w → trim_end_matches is_whitespace w ≡ w
unfolding trim_end_matches
trim_end-tight [] h = refl
trim_end-tight (c ∷ w) h = rw (trim_end_matches, h.0, trim_end-tight w h.1) refl

trim_start-blanks :
    (n : ℕ) (w : Text)
    → trim_start_matches is_whitespace (blanks n ++ w) ≡ trim_start_matches is_whitespace w
unfolding trim_start_matches is_whitespace
trim_start-blanks zero w = refl
trim_start-blanks (suc n) w = trim_start-blanks n w

trim_start-tight : (w : Text) → IsTight w → trim_start_matches is_whitespace w ≡ w
unfolding trim_start_matches
trim_start-tight [] h = refl
trim_start-tight (c ∷ w) h = rw (trim_start_matches, h.0) refl

pub trim-padded : (width : ℕ) (w : Text) → IsTight w → trim (padded width w) ≡ w
unfolding trim trim_matches
trim-padded width w h =
    rw (trim_start-blanks (width - length w) w, trim_start-tight w h, trim_end-tight w h) refl
