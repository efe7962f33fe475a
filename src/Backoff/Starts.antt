-- ===== src/Backoff/Starts.antt =====
-- Where the delays of crates/mqtt/v3/src/backoff.rs start from: a new backoff, and a reset.
use blazebee.Base.{ℕ, ◌≡◌, refl, max, arith}
use native.Mathlib.Decide.{dec_le}
use blazebee.Floats.{Floats, Lawful}
use blazebee.Backoff.{Backoff, new, with_jitter, clamp, reset}
use blazebee.Backoff.Generator.{IsState}
use blazebee.Backoff.Delays.{IsExact, IsSteady, moved-IsSteady}

module _ (fl : Floats) (law : Lawful fl) where
  open fl use {F, of_nat, half}

  -- `reset` goes back to the initial delay, and the sequence can go on from there.
  pub reset-IsSteady :
      (b : Backoff fl)
      → IsSteady fl law b
      → IsSteady fl law (reset fl b) × ((reset fl b).next ≡ b.initial)
  unfolding reset
  reset-IsSteady b s = (
    moved-IsSteady fl law b b.initial b.rng s (omega arith) (omega (arith, s.low, s.high))
        s.rng_state,
    refl,
  )

  max-IsExact : (a b : ℕ) → IsExact fl law a → IsExact fl law b → IsExact fl law (max a b)
  max-IsExact a b ha hb = elim (dec_le a b) [
    | yes h ↦ let e : max a b ≡ b = omega arith in rw e hb
    | no h ↦ let e : max a b ≡ a = omega arith in rw e ha
  ]

  -- For durations that are exact as `f64` and whatever factor and fraction, `new` and `with_jitter` give a steady
  -- state.
  pub new-IsSteady :
      (initial limit rng : ℕ) (factor fraction : F)
      → IsExact fl law initial
      → IsExact fl law limit
      → IsState rng
      → IsSteady fl law (with_jitter fl (new fl initial limit factor rng) fraction)
  unfolding with_jitter new clamp
  new-IsSteady initial limit rng factor fraction hi hl hr =
      let one_finite = law.of_nat_finite 1 (omega arith) in
      let one_le = law.le_refl (of_nat 1) one_finite in
      let zero_le = law.le_refl (of_nat 0) (law.of_nat_finite 0 (omega arith)) in
      let half_le = law.le_refl half law.half_finite in
      record {
        initial_exact = hi;
        limit_exact = max-IsExact limit initial hl hi;
        low = omega arith;
        high = omega arith;
        factor_finite = ground (arith, one_finite);
        factor_grows = ground (arith, one_le);
        jitter_low = ground (arith, zero_le, law.zero_le_half);
        jitter_high = ground (arith, half_le, law.zero_le_half);
        rng_state = hr;
      }
