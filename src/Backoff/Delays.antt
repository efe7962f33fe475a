-- ===== src/Backoff/Delays.antt =====
-- The delays of crates/mqtt/v3/src/backoff.rs: within their bounds, for as long as one goes on.
use blazebee.Base.{ℕ, ◌^◌, ◌≤◌, ◌≡◌, refl, ◌⊎◌, inl, inr, true, false, Bool-cases, some, arith}
use blazebee.Floats.{Floats, Lawful, IsDuration}
use blazebee.Backoff.{Backoff, next_delay, jittered, random_unit, unit_of, scale_of, xorshift}
use blazebee.Backoff.Generator.{IsState, xorshift-IsState}

module _ (fl : Floats) (law : Lawful fl) where
  open fl use {F, of_nat, half, add, sub, mul, div, fmin, le, eq, is_finite, as_secs, from_secs}

  -- A duration that survives the way through `f64`.
  abbrev pub IsExact : ℕ → Type 0
  IsExact d = IsDuration d × (from_secs (as_secs d) ≡ some d)

  pub record IsSteady (b : Backoff fl) : Type 0 where
    pub initial_exact : IsExact b.initial
    pub limit_exact : IsExact b.limit
    pub low : b.initial ≤ b.next
    pub high : b.next ≤ b.limit
    pub factor_finite : is_finite b.factor ≡ true
    pub factor_grows : le (of_nat 1) b.factor ≡ true
    pub jitter_low : le (of_nat 0) b.jitter ≡ true
    pub jitter_high : le b.jitter half ≡ true
    pub rng_state : IsState b.rng

  -- The random unit lies between 0 and 1.
  unit_bounds :
      (x : ℕ) → (le (of_nat 0) (unit_of fl x) ≡ true) × (le (unit_of fl x) (of_nat 1) ≡ true)
  unfolding unit_of
  unit_bounds x = law.ratio_bounds _ (2 ^ 53) (omega arith) (omega arith) (omega arith)

  module _ (j : F) (low : le (of_nat 0) j ≡ true) (high : le j half ≡ true) where
    jitter_finite : is_finite j ≡ true
    jitter_finite =
        law.between_finite (of_nat 0) j half (law.of_nat_finite 0 (omega arith)) law.half_finite low
          high

    one_finite : is_finite (of_nat 1) ≡ true
    one_finite = law.of_nat_finite 1 (omega arith)

    -- So the scale lies between 1 - j and 1 + j.
    scale_low : (x : ℕ) → le (sub (of_nat 1) j) (scale_of fl j (unit_of fl x)) ≡ true
    scale_low x =
        let (u0, u1) = unit_bounds x in
        let (d0, d1) = law.double_bounds (unit_of fl x) u0 u1 in
        let minus = law.minus_one_finite in
        let inner = law.between_finite _ _ _ minus one_finite d0 d1 in
        law.le_trans _ _ _ (law.opposite j jitter_finite)
          (law.add_mono _ _ _ one_finite (law.mul_mono j _ _ jitter_finite minus inner low d0))

    scale_high : (x : ℕ) → le (scale_of fl j (unit_of fl x)) (add (of_nat 1) j) ≡ true
    scale_high x =
        let (u0, u1) = unit_bounds x in
        let (d0, d1) = law.double_bounds (unit_of fl x) u0 u1 in
        let inner = law.between_finite _ _ _ law.minus_one_finite one_finite d0 d1 in
        law.add_mono _ _ _ one_finite (
          law.le_trans _ _ _ (law.mul_mono j _ _ jitter_finite inner one_finite low d1)
            (law.mul_one j jitter_finite))

  -- The delay bounds with jitter.
  pub record Band (b : Backoff fl) (lower upper : ℕ) : Type 0 where
    pub lower_delay : from_secs (mul (as_secs b.initial) (sub (of_nat 1) b.jitter)) ≡ some lower
    pub upper_delay : from_secs (mul (as_secs b.limit) (add (of_nat 1) b.jitter)) ≡ some upper

  jittered_bounds :
      (b : Backoff fl) (lower upper x : ℕ)
      → IsSteady b
      → Band b lower upper
      → (d : ℕ) × (from_secs (mul (as_secs b.next) (scale_of fl b.jitter (unit_of fl x))) ≡ some d)
        × (lower ≤ d)
        × (d ≤ upper)
  jittered_bounds b lower upper x s band =
      let j = b.jitter in
      let scale = scale_of fl j (unit_of fl x) in
      let (nonneg, less_finite, more_finite) = law.around_one j s.jitter_low s.jitter_high in
      let above = scale_low j s.jitter_low s.jitter_high x in
      let below = scale_high j s.jitter_low s.jitter_high x in
      let scale_finite = law.between_finite _ _ _ less_finite more_finite above below in
      let scale_nonneg = law.le_trans _ _ _ nonneg above in
      let start_finite = law.as_secs_finite b.initial s.initial_exact.0 in
      let end_finite = law.as_secs_finite b.limit s.limit_exact.0 in
      let base_finite = law.as_secs_finite b.next (omega (arith, s.high, s.limit_exact.0)) in
      let base_nonneg = law.as_secs_nonneg b.next in
      let to_upper =
        law.le_trans _ _ _
          (law.mul_mono_left _ _ scale base_finite end_finite scale_finite scale_nonneg
            (law.as_secs_mono _ _ s.high))
          (law.mul_mono (as_secs b.limit) _ _ end_finite scale_finite more_finite
            (law.as_secs_nonneg b.limit) below) in
      let from_lower =
        law.le_trans _ _ _
          (law.mul_mono_left _ _ (sub (of_nat 1) j) start_finite base_finite less_finite nonneg
            (law.as_secs_mono _ _ s.low))
          (law.mul_mono (as_secs b.next) _ _ base_finite less_finite scale_finite base_nonneg
            above) in
      let positive = law.mul_nonneg _ _ base_finite scale_finite base_nonneg scale_nonneg in
      let (d, e) = law.from_secs_below _ _ upper positive to_upper band.upper_delay in
      (
        d,
        e,
        law.from_secs_mono _ _ lower d from_lower band.lower_delay e,
        law.from_secs_mono _ _ d upper to_upper e band.upper_delay,
      )

  -- The base of the next delay exists and keeps within its bounds.
  next_base :
      (b : Backoff fl)
      → IsSteady b
      → (n : ℕ) × (from_secs (fmin (mul (as_secs b.next) b.factor) (as_secs b.limit)) ≡ some n)
        × (b.initial ≤ n)
        × (n ≤ b.limit)
        × (IsExact b.next → b.next ≤ n)
  next_base b s =
      let end_finite = law.as_secs_finite b.limit s.limit_exact.0 in
      let base_finite = law.as_secs_finite b.next (omega (arith, s.high, s.limit_exact.0)) in
      let grows =
        law.mul_grows _ _ base_finite s.factor_finite (law.as_secs_nonneg b.next) s.factor_grows in
      let base_low = law.le-fmin _ _ _ grows (law.as_secs_mono _ _ s.high) in
      let low = law.le_trans _ _ _ (law.as_secs_mono _ _ s.low) base_low in
      let high = law.fmin-le_right (mul (as_secs b.next) b.factor) _ end_finite in
      let nonneg = law.le_trans _ _ _ (law.as_secs_nonneg b.next) base_low in
      let (n, e) = law.from_secs_below _ _ b.limit nonneg high s.limit_exact.1 in
      (
        n,
        e,
        law.from_secs_mono _ _ _ _ low s.initial_exact.1 e,
        law.from_secs_mono _ _ _ _ high e s.limit_exact.1,
        (λ exact. law.from_secs_mono _ _ _ _ base_low exact.1 e),
      )

  -- A wait: no panic, a delay within bounds, and a state from which one can go on.
  pub record Waits (b : Backoff fl) (lower upper : ℕ) : Type 0 where
    pub after : Backoff fl
    pub delay : ℕ
    pub runs : next_delay fl b ≡ some (after, delay)
    pub steady : IsSteady after
    pub settings_kept :
        (after.initial ≡ b.initial)
        × (after.limit ≡ b.limit)
        × (after.factor ≡ b.factor)
        × (after.jitter ≡ b.jitter)
    pub grows : IsExact b.next → b.next ≤ after.next
    pub bounds :
        ((eq b.jitter (of_nat 0) ≡ true) × (delay ≡ b.next))
        ⊎ ((eq b.jitter (of_nat 0) ≡ false) × (lower ≤ delay) × (delay ≤ upper))

  pub moved-IsSteady :
      (b : Backoff fl) (n x : ℕ)
      → IsSteady b
      → b.initial ≤ n
      → n ≤ b.limit
      → IsState x
      → IsSteady (record b { next = n; rng = x })
  moved-IsSteady b n x s low high state = record {
    initial_exact = s.initial_exact;
    limit_exact = s.limit_exact;
    low = low;
    high = high;
    factor_finite = s.factor_finite;
    factor_grows = s.factor_grows;
    jitter_low = s.jitter_low;
    jitter_high = s.jitter_high;
    rng_state = state;
  }

  -- From a steady state `next_delay` never panics, and it leaves a steady state: every delay lies within `1 ± jitter`
  -- of the bounds, or is the base itself where there is no jitter, and the base does not shrink.
  pub next_delay-Waits :
      (b : Backoff fl) (lower upper : ℕ) → IsSteady b → Band b lower upper → Waits b lower upper
  unfolding next_delay jittered random_unit
  next_delay-Waits b lower upper s band =
      let (n, e, low, high, grows) = next_base b s in
      elim (Bool-cases (eq b.jitter (of_nat 0))) [
        | inl plain ↦ record {
          after = record b { next = n };
          delay = b.next;
          runs = rw (e, next_delay) (rw plain);
          steady = moved-IsSteady b n b.rng s low high s.rng_state;
          settings_kept = (refl, refl, refl, refl);
          grows = grows;
          bounds = inl (plain, refl);
        }
        | inr random ↦
            let x = xorshift b.rng in
            let (d, runs, above, below) = jittered_bounds b lower upper x s band in
            record {
              after = record b { next = n; rng = x };
              delay = d;
              runs = rw (e, next_delay) (rw random (rw runs));
              steady = moved-IsSteady b n x s low high (xorshift-IsState b.rng s.rng_state);
              settings_kept = (refl, refl, refl, refl);
              grows = grows;
              bounds = inr (random, above, below);
            }
      ]
