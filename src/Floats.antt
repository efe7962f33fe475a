-- ===== src/Floats.antt =====
-- `f64`, as far as crates/mqtt/v3/src/backoff.rs and connection.rs use it. A `Duration` is its
-- nanoseconds.
use blazebee.Base.{ℕ, ◌*◌, ◌^◌, ◌≤◌, ◌<◌, ◌≡◌, Bool, true, Option, some}

pub record Floats : Type 1 where
  pub F : Type 0
  pub of_nat : ℕ → F  -- `n as f64`
  pub half : F
  pub add : F → F → F
  pub sub : F → F → F
  pub mul : F → F → F
  pub div : F → F → F
  pub fmin : F → F → F
  pub le : F → F → Bool
  pub eq : F → F → Bool
  pub is_finite : F → Bool
  pub as_secs : ℕ → F  -- `Duration::as_secs_f64`
  pub from_secs : F → Option ℕ  -- `Duration::from_secs_f64`; `none` is its panic

-- A `Duration` holds less than 2^64 seconds.
abbrev pub IsDuration : ℕ → Type 0
IsDuration d = d < 2 ^ 64 * 1_000_000_000

-- What the proofs rely on, of IEEE 754 and of the conversions: comparison is an order on what it holds
-- for, rounding is monotone, integers and one half are exact, and a conversion to a `Duration` succeeds
-- below any value at which it succeeds. `Yes b` is `b ≡ true`.
abbrev Yes : Bool → Type 0
Yes b = b ≡ true

pub record Lawful (fl : Floats) : Type 0 where
  pub of_nat_finite : (n : ℕ) → n < 2 ^ 64 → Yes (fl.is_finite (fl.of_nat n))
  pub between_finite :
      (x y z : fl.F)
      → Yes (fl.is_finite x)
      → Yes (fl.is_finite z)
      → Yes (fl.le x y)
      → Yes (fl.le y z)
      → Yes (fl.is_finite y)
  pub as_secs_finite : (d : ℕ) → IsDuration d → Yes (fl.is_finite (fl.as_secs d))
  pub le_trans : (x y z : fl.F) → Yes (fl.le x y) → Yes (fl.le y z) → Yes (fl.le x z)
  pub le_refl : (x : fl.F) → Yes (fl.is_finite x) → Yes (fl.le x x)
  pub zero_le_one : Yes (fl.le (fl.of_nat 0) (fl.of_nat 1))
  pub fmin-le_right : (x y : fl.F) → Yes (fl.is_finite y) → Yes (fl.le (fl.fmin x y) y)
  pub le-fmin : (x y z : fl.F) → Yes (fl.le z x) → Yes (fl.le z y) → Yes (fl.le z (fl.fmin x y))
  pub add_mono :
      (x y z : fl.F)
      → Yes (fl.is_finite x)
      → Yes (fl.le y z)
      → Yes (fl.le (fl.add x y) (fl.add x z))
  pub mul_mono :
      (x y z : fl.F)
      → Yes (fl.is_finite x)
      → Yes (fl.is_finite y)
      → Yes (fl.is_finite z)
      → Yes (fl.le (fl.of_nat 0) x)
      → Yes (fl.le y z)
      → Yes (fl.le (fl.mul x y) (fl.mul x z))
  pub mul_mono_left :
      (x y z : fl.F)
      → Yes (fl.is_finite x)
      → Yes (fl.is_finite y)
      → Yes (fl.is_finite z)
      → Yes (fl.le (fl.of_nat 0) z)
      → Yes (fl.le x y)
      → Yes (fl.le (fl.mul x z) (fl.mul y z))
  pub mul_grows :
      (x k : fl.F)
      → Yes (fl.is_finite x)
      → Yes (fl.is_finite k)
      → Yes (fl.le (fl.of_nat 0) x)
      → Yes (fl.le (fl.of_nat 1) k)
      → Yes (fl.le x (fl.mul x k))
  pub mul_nonneg :
      (x y : fl.F)
      → Yes (fl.is_finite x)
      → Yes (fl.is_finite y)
      → Yes (fl.le (fl.of_nat 0) x)
      → Yes (fl.le (fl.of_nat 0) y)
      → Yes (fl.le (fl.of_nat 0) (fl.mul x y))
  pub mul_one : (x : fl.F) → Yes (fl.is_finite x) → Yes (fl.le (fl.mul x (fl.of_nat 1)) x)
  pub ratio_bounds :
      (a b : ℕ)
      → a ≤ b
      → 0 < b
      → b < 2 ^ 64
      → Yes (fl.le (fl.of_nat 0) (fl.div (fl.of_nat a) (fl.of_nat b)))
        × Yes (fl.le (fl.div (fl.of_nat a) (fl.of_nat b)) (fl.of_nat 1))
  -- 2u - 1 lies between -1 and 1.
  pub double_bounds :
      (u : fl.F)
      → Yes (fl.le (fl.of_nat 0) u)
      → Yes (fl.le u (fl.of_nat 1))
      → Yes (
          fl.le
            (fl.sub (fl.of_nat 0) (fl.of_nat 1))
            (fl.sub (fl.mul (fl.of_nat 2) u) (fl.of_nat 1)))
        × Yes (fl.le (fl.sub (fl.mul (fl.of_nat 2) u) (fl.of_nat 1)) (fl.of_nat 1))
  pub minus_one_finite : Yes (fl.is_finite (fl.sub (fl.of_nat 0) (fl.of_nat 1)))
  -- 1 - x is at most 1 + x * -1.
  pub opposite :
      (x : fl.F)
      → Yes (fl.is_finite x)
      → Yes (
          fl.le
            (fl.sub (fl.of_nat 1) x)
            (fl.add (fl.of_nat 1) (fl.mul x (fl.sub (fl.of_nat 0) (fl.of_nat 1)))))
  pub half_finite : Yes (fl.is_finite fl.half)
  pub zero_le_half : Yes (fl.le (fl.of_nat 0) fl.half)
  -- 1 - x and 1 + x, for x between 0 and one half.
  pub around_one :
      (x : fl.F)
      → Yes (fl.le (fl.of_nat 0) x)
      → Yes (fl.le x fl.half)
      → Yes (fl.le (fl.of_nat 0) (fl.sub (fl.of_nat 1) x))
        × Yes (fl.is_finite (fl.sub (fl.of_nat 1) x))
        × Yes (fl.is_finite (fl.add (fl.of_nat 1) x))
  pub as_secs_nonneg : (d : ℕ) → Yes (fl.le (fl.of_nat 0) (fl.as_secs d))
  pub as_secs_mono : (d e : ℕ) → d ≤ e → Yes (fl.le (fl.as_secs d) (fl.as_secs e))
  pub from_secs_mono :
      (x y : fl.F) (a b : ℕ)
      → Yes (fl.le x y)
      → fl.from_secs x ≡ some a
      → fl.from_secs y ≡ some b
      → a ≤ b
  pub from_secs_below :
      (x y : fl.F) (b : ℕ)
      → Yes (fl.le (fl.of_nat 0) x)
      → Yes (fl.le x y)
      → fl.from_secs y ≡ some b
      → (a : ℕ) × (fl.from_secs x ≡ some a)
