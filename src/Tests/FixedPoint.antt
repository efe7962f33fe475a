-- ===== src/Tests/FixedPoint.antt =====
-- Fixed-point numbers with nine digits in place of `f64`: a number is its nanos.
use blazebee.Base.{
  ℕ, ◌+◌, ◌-◌, ◌*◌, ◌/◌, ◌≤◌, ◌<◌, ◌≡◌, refl, min, true, some, leb, leb→le, ◌==◌, arith,
}
use blazebee.Floats.{Floats, Lawful}

abbrev nanos : ℕ
nanos = 1_000_000_000

abbrev pub fixed : Floats
fixed = record {
  F = ℕ;
  of_nat = λ n. n * nanos;
  half = 500_000_000;
  add = λ a b. a + b;
  sub = λ a b. a - b;
  mul = λ a b. a * b / nanos;
  div = λ a b. a * nanos / b;
  fmin = λ a b. min a b;
  le = λ a b. leb a b;
  eq = λ a b. a == b;
  is_finite = λ a. true;
  as_secs = λ d. d;
  from_secs = λ x. some x;
}

div_mono : (a b : ℕ) → a ≤ b → leb (a / nanos) (b / nanos) ≡ true
div_mono a b h = ground arith

mul_le : (x y z : ℕ) → y ≤ z → x * y ≤ x * z
mul_le x y z h = grind arith

mul_le_left : (x y z : ℕ) → x ≤ y → x * z ≤ y * z
mul_le_left x y z h = grind arith

ratio_le : (a b : ℕ) → a ≤ b → 0 < b → a * nanos * nanos / (b * nanos) ≤ nanos
ratio_le a b h p = grind arith

pub fixed_law : Lawful fixed
fixed_law = record {
  of_nat_finite = λ n h. refl;
  between_finite = λ x y z a b c d. refl;
  as_secs_finite = λ d h. refl;
  le_trans = λ x y z a b. ground arith;
  le_refl = λ x h. ground arith;
  zero_le_one = refl;
  fmin-le_right = λ x y h. ground arith;
  le-fmin = λ x y z a b. ground arith;
  add_mono = λ x y z a b. ground arith;
  mul_mono = λ x y z a b c d e. div_mono (x * y) (x * z) (mul_le x y z (leb→le y z e));
  mul_mono_left = λ x y z a b c d e. div_mono (x * z) (y * z) (mul_le_left x y z (leb→le x y e));
  mul_grows = λ x k a b c d. ground (arith, mul_le x nanos k (leb→le nanos k d));
  mul_nonneg = λ x y a b c d. ground arith;
  mul_one = λ x h. ground arith;
  ratio_bounds = λ a b h p q. (ground arith, ground (arith, ratio_le a b h p));
  double_bounds = λ u a b. ground arith;
  minus_one_finite = refl;
  opposite = λ x h. ground arith;
  half_finite = refl;
  zero_le_half = refl;
  around_one = λ x a b. (ground arith, refl, refl);
  as_secs_nonneg = λ d. ground arith;
  as_secs_mono = λ d e h. ground arith;
  from_secs_mono = λ x y a b h p q. ground arith;
  from_secs_below = λ x y b p q h. (x, refl);
}
