-- ===== src/Collectors/Procfs/Mounts.antt =====
-- `unescape_mount_field` of src/core/collectors/procfs.rs against the escapes of the kernel, whose seq_escape writes
-- each byte of a set, the backslash among them, as a backslash and three octal digits.
use blazebee.Base.{
  ℕ, ◌+◌, ◌/◌, ◌%◌, ◌<◌, ◌≡◌, refl, ap, ==_iff, ◌∙◌, Bool, true, false, [], ◌∷◌, ◌&&◌, ◌==◌,
  if◌then◌else◌, arith, Bool-cases, inl, inr, All,
}
use blazebee.Framer.{Bytes}
use blazebee.Base.Text.{Text, contains}
use blazebee.Base.Utf8.{as_bytes, from_utf8_lossy}
use blazebee.Base.Utf8.Sequences.{IsScalar}
use blazebee.Base.Utf8.RoundTrip.{from_utf8_lossy-as_bytes, as_bytes-lt, as_bytes_ne}
use blazebee.Collectors.Procfs.{unescape_bytes, unescape_mount_field, octal, is_octal}

-- `seq_escape` with the set of the bytes that are escaped.
unfoldable pub seq_escape : (ℕ → Bool) → Bytes → Bytes
seq_escape marked [] = []
seq_escape marked (b ∷ s) =
    let rest = seq_escape marked s in
    if marked b
    then b'\\' ∷ (b'0' + b / 64) ∷ (b'0' + b / 8 % 8) ∷ (b'0' + b % 8) ∷ rest
    else b ∷ rest

-- A byte that is no backslash stands for itself.
unescape_cons :
    (b : ℕ) (s : Bytes) → (b == b'\\') ≡ false → unescape_bytes (b ∷ s) ≡ b ∷ unescape_bytes s
unfolding unescape_bytes
unescape_cons b [] e = refl
unescape_cons b (x ∷ []) e = refl
unescape_cons b (x ∷ y ∷ []) e = refl
unescape_cons b (x ∷ y ∷ z ∷ s) e = rw (unescape_bytes, e) refl

octal_lem : (b : ℕ) → b < 256 → octal (b'0' + b / 64) (b'0' + b / 8 % 8) (b'0' + b % 8) ≡ b
octal_lem b h = omega (arith, h)

octal_digits :
    (b : ℕ)
    → b < 256
    → (is_octal (b'0' + b / 64) && (is_octal (b'0' + b / 8 % 8) && is_octal (b'0' + b % 8))) ≡ true
octal_digits b h = ground (arith, h)

marked_cons :
    (marked : ℕ → Bool) (b : ℕ) → marked b'\\' ≡ true → marked b ≡ false → (b == b'\\') ≡ false
marked_cons marked b h e = elim (Bool-cases (b == b'\\')) [
  | inl same ↦ cc (h, e, ap marked ((==_iff b b'\\').0 same))
  | inr other ↦ other
]

unescape_nil : unescape_bytes [] ≡ []
unfolding unescape_bytes
unescape_nil = refl

unescape_octal :
    (x y z : ℕ) (s : Bytes)
    → (is_octal x && (is_octal y && is_octal z)) ≡ true
    → unescape_bytes (b'\\' ∷ x ∷ y ∷ z ∷ s) ≡ octal x y z ∷ unescape_bytes s
unfolding unescape_bytes
unescape_octal x y z s h = rw (unescape_bytes, h) refl

unescape-seq_escape :
    (marked : ℕ → Bool) (s : Bytes)
    → marked b'\\' ≡ true
    → All (λ b. b < 256) s
    → unescape_bytes (seq_escape marked s) ≡ s
unfolding seq_escape
unescape-seq_escape marked [] h small = unescape_nil
unescape-seq_escape marked (b ∷ s) h small = elim (Bool-cases (marked b)) [
  | inl e ↦ rw e (
      unescape_octal _ _ _ (seq_escape marked s) (octal_digits b small.0)
      ∙ rw (octal_lem b small.0, unescape-seq_escape marked s h small.1) refl)
  | inr e ↦ rw e (
      unescape_cons b (seq_escape marked s) (marked_cons marked b h e)
      ∙ ap (λ t. b ∷ t) (unescape-seq_escape marked s h small.1))
]

-- Bytes without a backslash stand for themselves.
unescape_plain : (s : Bytes) → All (λ b. (b == b'\\') ≡ false) s → unescape_bytes s ≡ s
unescape_plain [] h = unescape_nil
unescape_plain (b ∷ s) h = unescape_cons b s h.0 ∙ ap (λ t. b ∷ t) (unescape_plain s h.1)

-- The shortcut for a field without a backslash changes nothing.
unescape_slow :
    (field : Text)
    → All IsScalar field
    → unescape_mount_field field ≡ from_utf8_lossy (unescape_bytes (as_bytes field))
unfolding unescape_mount_field
unescape_slow field h = elim (Bool-cases (contains field b'\\')) [
  | inl e ↦ rw e refl
  | inr e ↦
      rw
        (
          e,
          unescape_plain (as_bytes field) (as_bytes_ne b'\\' field (omega arith) e),
          from_utf8_lossy-as_bytes field h,
        )
        refl
]

-- A field whose bytes are those of a text as the kernel escapes them is decoded to that text, whatever else than the
-- backslash the kernel escapes. Both are texts of Unicode scalar values.
pub unescape_mount_field-seq_escape :
    (marked : ℕ → Bool) (field text : Text)
    → marked b'\\' ≡ true
    → All IsScalar field
    → All IsScalar text
    → as_bytes field ≡ seq_escape marked (as_bytes text)
    → unescape_mount_field field ≡ text
unescape_mount_field-seq_escape marked field text h valid valid' e =
    unescape_slow field valid
    ∙ ap (λ bs. from_utf8_lossy (unescape_bytes bs)) e
    ∙ ap from_utf8_lossy (unescape-seq_escape marked (as_bytes text) h (as_bytes-lt text valid'))
    ∙ from_utf8_lossy-as_bytes text valid'
