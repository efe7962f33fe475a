-- ===== src/Publisher/Topics.antt =====
-- `join_topic` of crates/mqtt/v3/src/publisher.rs, and the topic check of
-- crates/mqtt/v3/src/config.rs against it.
use blazebee.Base.{
  ℕ, zero, suc, ◌+◌, ◌≤◌, ◌≡◌, ◌≢◌, refl, ap, Bool, [], ◌∷◌, ◌++◌, append-nil, arith, ◌==◌,
  if◌then◌else◌,
}
use blazebee.Base.Text.{
  Text, is_empty, trim_start_matches, trim_end_matches, utf8_len, utf8_len-append,
}
use blazebee.Config.Valid.{IsTopic}
use blazebee.Publisher.{join_topic}

abbrev is_slash : ℕ → Bool
is_slash c = c == b'/'

abbrev pub replicate : ℕ → ℕ → Text
replicate zero c = []
replicate (suc n) c = c ∷ replicate n c

-- Neither end is a slash, where the two parts meet.
abbrev pub StartsClean : Text → Type 0
StartsClean [] = Unit {0}
StartsClean (c ∷ s) = c ≢ b'/'

abbrev pub EndsClean : Text → Type 0
EndsClean [] = Unit {0}
EndsClean (c ∷ []) = c ≢ b'/'
EndsClean (c ∷ d ∷ s) = EndsClean (d ∷ s)

trim_start_slashes :
    (n : ℕ) (s : Text) → StartsClean s → trim_start_matches is_slash (replicate n b'/' ++ s) ≡ s
unfolding trim_start_matches
trim_start_slashes zero [] h = refl
trim_start_slashes zero (c ∷ s) h = ground arith
trim_start_slashes (suc n) s h = trim_start_slashes n s h

trim_end_slashes : (n : ℕ) → trim_end_matches is_slash (replicate n b'/') ≡ []
unfolding trim_end_matches
trim_end_slashes zero = refl
trim_end_slashes (suc n) = ground (arith, trim_end_slashes n)

trim_end-append :
    (n : ℕ) (s : Text) → EndsClean s → trim_end_matches is_slash (s ++ replicate n b'/') ≡ s
unfolding trim_end_matches
trim_end-append n [] h = trim_end_slashes n
trim_end-append n (c ∷ []) h = ground (arith, trim_end_slashes n)
trim_end-append n (c ∷ d ∷ s) h = rw (trim_end-append n (d ∷ s) h) (ground arith)

-- For parts that have no slash of their own there, `join_topic` drops the slashes where the parts meet and puts one
-- there; if the base is empty, or has slashes only, it gives the topic without its leading slashes.
pub join_topic_lem :
    (n k : ℕ) (base topic : Text)
    → EndsClean base
    → StartsClean topic
    → join_topic (base ++ replicate n b'/') (replicate k b'/' ++ topic)
      ≡ (if is_empty base then topic else base ++ (b'/' ∷ topic))
unfolding join_topic
join_topic_lem n k base topic hb ht = rw (trim_end-append n base hb, trim_start_slashes k topic ht)

-- Two topics that pass the check can be too long together: if the base is not empty, there is no slash where they meet,
-- and they have 65535 bytes or more, then the topic that is published does not pass it.
pub join_topic_overflow :
    (base topic : Text)
    → IsTopic base
    → IsTopic topic
    → EndsClean base
    → StartsClean topic
    → base ≢ []
    → 65535 ≤ utf8_len base + utf8_len topic
    → ¬ IsTopic (join_topic base topic)
join_topic_overflow [] topic vb vt hb ht some_base long v = absurd (some_base refl)
join_topic_overflow (b ∷ base) topic vb vt hb ht some_base long v =
    let joined = join_topic_lem 0 0 (b ∷ base) topic hb ht in
    omega (
      arith,
      ap utf8_len joined,
      ap (λ s. utf8_len (join_topic s topic)) (append-nil (b ∷ base)),
      utf8_len-append (b ∷ base) (b'/' ∷ topic),
      slash topic,
      v.short,
    )
  where
    slash : (s : Text) → utf8_len (b'/' ∷ s) ≡ 1 + utf8_len s
    slash s = unfold utf8_len in refl
