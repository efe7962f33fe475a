-- ===== src/Collectors/Procfs/Numbers.antt =====
-- Numbers and fields as the kernel prints them, against the reading of src/core/collectors/procfs.rs.
use blazebee.Base.{
  ℕ, zero, suc, ◌+◌, ◌-◌, ◌*◌, ◌/◌, ◌%◌, ◌^◌, ◌<◌, ◌≤◌, ◌≡◌, refl, ap, ◌∙◌, true, false, ◌&&◌, some,
  List, [], ◌∷◌, ◌++◌, ltb, ltb→lt, lt→ltb, leb, ◌==◌, if◌then◌else◌, arith, Bool-cases, inl, inr,
  All, All-append, ok,
}
use blazebee.Base.Text.{Text, is_empty}
use blazebee.Collectors.Procfs.{
  digits_value, parse_uint, strip_plus, lines, pieces, next_field, parse_field, is_ascii_whitespace,
}

-- Decimal digits, on fuel: more of it than the number's value is enough.
unfoldable pub print : ℕ → ℕ → Text
print zero n = []
print (suc k) n =
    let front = print k (n / 10) in
    if ltb n 10 then (b'0' + n) ∷ [] else front ++ ((b'0' + n % 10) ∷ [])

-- `%llu`
abbrev pub decimal : ℕ → Text
decimal n = print (suc n) n

digits_value_snoc :
    (s : Text) (acc v d : ℕ)
    → digits_value acc s ≡ some v
    → d < 10
    → digits_value acc (s ++ ((b'0' + d) ∷ [])) ≡ some (v * 10 + d)
unfolding digits_value
digits_value_snoc [] acc v d h small = ground arith
digits_value_snoc (x ∷ s) acc v d h small = elim (Bool-cases (leb b'0' x && leb x b'9')) [
  | inl e ↦
      rw (digits_value, e)
        (digits_value_snoc s (acc * 10 + (x - b'0')) v d (rw (digits_value, e) at h) small)
  | inr e ↦ cc (rw (digits_value, e) at h)
]

digits_value-print : (k n : ℕ) → n < k → digits_value 0 (print k n) ≡ some n
unfolding print digits_value
digits_value-print zero n h = ground (arith, h)
digits_value-print (suc k) n h = elim (Bool-cases (ltb n 10)) [
  | inl e ↦ rw (print, e) ground (arith, e)
  | inr e ↦
      rw (print, e)
        (digits_value_snoc (print k (n / 10)) 0 (n / 10) (n % 10)
            (digits_value-print k (n / 10) (ground (arith, e, h))) (omega arith)
          ∙ ap some (omega arith))
]

abbrev pub IsDigit : ℕ → Type 0
IsDigit c = (b'0' ≤ c) × (c ≤ b'9')

print-IsDigit : (k n : ℕ) → All IsDigit (print k n)
unfolding print
print-IsDigit zero n = tt
print-IsDigit (suc k) n = elim (Bool-cases (ltb n 10)) [
  | inl e ↦ rw (print, e) ((omega (arith, ltb→lt n 10 e), tt))
  | inr e ↦
      rw (print, e)
        (All-append IsDigit (print k (n / 10)) ((b'0' + n % 10) ∷ []) (print-IsDigit k (n / 10))
          (omega arith))
]

snoc_full : (s : Text) (c : ℕ) → is_empty (s ++ (c ∷ [])) ≡ false
snoc_full [] c = refl
snoc_full (x ∷ s) c = refl

print_full : (k n : ℕ) → n < k → is_empty (print k n) ≡ false
unfolding print
print_full zero n h = ground (arith, h)
print_full (suc k) n h = elim (Bool-cases (ltb n 10)) [
  | inl e ↦ rw (print, e) refl
  | inr e ↦ rw (print, e) (snoc_full (print k (n / 10)) (b'0' + n % 10))
]

strip_plus-digits : (s : Text) → All IsDigit s → strip_plus s ≡ s
strip_plus-digits [] h = refl
strip_plus-digits (x ∷ s) h = ground (arith, h.0)

-- A printed number that fits is read back.
pub parse_uint-decimal : (w n : ℕ) → n < 2 ^ w → parse_uint w (decimal n) ≡ some n
unfolding parse_uint
parse_uint-decimal w n h =
    rw
      (
        strip_plus-digits (decimal n) (print-IsDigit (suc n) n),
        print_full (suc n) n (omega arith),
        digits_value-print (suc n) n (omega arith),
        lt→ltb n (2 ^ w) h,
      )
      refl

abbrev pub IsWord : Text → Type 0
IsWord w = All (λ c. is_ascii_whitespace c ≡ false) w

digits-IsWord : (s : Text) → All IsDigit s → IsWord s
digits-IsWord [] h = tt
digits-IsWord (x ∷ s) h = (ground (arith, h.0), digits-IsWord s h.1)

pub pieces_word :
    (w : Text) (c : ℕ) (rest : Text)
    → IsWord w
    → is_ascii_whitespace c ≡ true
    → pieces (w ++ (c ∷ rest)) ≡ w ∷ pieces rest
unfolding pieces
pieces_word [] c rest h blank = rw (pieces, blank) refl
pieces_word (x ∷ w) c rest h blank = rw (pieces, h.0) (rw (pieces_word w c rest h.1 blank) refl)

pub decimal-IsWord : (n : ℕ) → IsWord (decimal n) × (is_empty (decimal n) ≡ false)
decimal-IsWord n =
    (digits-IsWord (decimal n) (print-IsDigit (suc n) n), print_full (suc n) n (omega arith))

pub next_field-decimal :
    (w n : ℕ) (rest : List Text) (path what : Text)
    → n < 2 ^ w
    → next_field w (decimal n ∷ rest) path what ≡ ok (n, rest)
unfolding next_field parse_field
next_field-decimal w n rest path what h =
    rw (next_field, parse_field, parse_uint-decimal w n h) refl

pub pieces_last : (w : Text) → IsWord w → pieces w ≡ w ∷ []
unfolding pieces
pieces_last [] h = refl
pieces_last (x ∷ w) h = rw (pieces, h.0) (rw (pieces_last w h.1) refl)

-- No character of the text ends a line.
abbrev pub IsLine : Text → Type 0
IsLine l = All (λ c. ((c == 10) ≡ false) × ((c == 13) ≡ false)) l

pub lines-line : (l rest : Text) → IsLine l → lines (l ++ (10 ∷ rest)) ≡ l ∷ lines rest
unfolding lines
lines-line [] rest h = refl
lines-line (x ∷ l) rest h = rw (lines, h.0.0, h.0.1) (rw (lines-line l rest h.1) refl)

pub word-IsLine : (w : Text) → IsWord w → IsLine w
word-IsLine [] h = tt
word-IsLine (x ∷ w) h = (ground (arith, h.0), word-IsLine w h.1)
