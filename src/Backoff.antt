-- ===== src/Backoff.antt =====
-- crates/mqtt/v3/src/backoff.rs: capped exponential backoff with jitter. `u64` arithmetic wraps.
pub mod Generator
pub mod Delays
pub mod Starts
use Prim.Native.Nat.{bit_xor}
use blazebee.Base.{
  ℕ, ◌+◌, ◌*◌, ◌/◌, ◌%◌, ◌^◌, max, Bool, true, false, not, ◌&&◌, Option, none, some, ◌==◌,
  if◌then◌else◌,
}
use blazebee.Floats.{Floats}

abbrev pub u64_mod : ℕ
u64_mod = 2 ^ 64

-- A second, in nanoseconds.
abbrev pub second : ℕ
second = 1_000_000_000

-- One xorshift round, and the multiplier of the star.
unfoldable pub shift_12 : ℕ → ℕ
shift_12 x = bit_xor x (x / 2 ^ 12)

unfoldable pub shift_25 : ℕ → ℕ
shift_25 x = bit_xor x (x * 2 ^ 25 % u64_mod)

unfoldable pub shift_27 : ℕ → ℕ
shift_27 x = bit_xor x (x / 2 ^ 27)

unfoldable pub xorshift : ℕ → ℕ
unfolding shift_12 shift_25 shift_27
xorshift x = shift_27 (shift_25 (shift_12 x))

abbrev multiplier : ℕ
multiplier = 0x2545_F491_4F6C_DD1D

-- `seed`, from the hasher's value.
unfoldable pub seed : ℕ → ℕ
seed s = if s == 0 then 0x9E37_79B9_7F4A_7C15 else s

module _ (fl : Floats) where
  open fl use {F, of_nat, half, add, sub, mul, div, fmin, le, eq, is_finite, as_secs, from_secs}

  pub record Backoff : Type 0 where
    pub initial : ℕ
    pub limit : ℕ  -- `max`
    pub factor : F
    pub jitter : F
    pub next : ℕ
    pub rng : ℕ

  -- Backoff::new, with the seed that it draws.
  unfoldable pub new : ℕ → ℕ → F → ℕ → Backoff
  new initial limit factor rng = record {
    initial = initial;
    limit = max limit initial;
    factor = if is_finite factor && le (of_nat 1) factor then factor else of_nat 1;
    jitter = of_nat 0;
    next = initial;
    rng = rng;
  }

  -- `fraction.clamp(0.0, 0.5)`
  unfoldable pub clamp : F → F → F → F
  clamp lo hi x = if not (le lo x) then lo else if not (le x hi) then hi else x

  unfoldable pub with_jitter : Backoff → F → Backoff
  unfolding clamp
  with_jitter b fraction = record b {
    jitter = if is_finite fraction then clamp (of_nat 0) half fraction else of_nat 0;
  }

  unfoldable pub reset : Backoff → Backoff
  reset b = record b { next = b.initial }

  -- `random_unit`: the state after it, and its value.
  unfoldable pub unit_of : ℕ → F
  unit_of x = div (of_nat (x * multiplier % u64_mod / 2 ^ 11)) (of_nat (2 ^ 53))

  unfoldable pub random_unit : Backoff → Backoff × F
  unfolding unit_of
  random_unit b = let x = xorshift b.rng in (record b { rng = x }, unit_of x)

  abbrev scale_of : F → F → F
  scale_of jitter unit = add (of_nat 1) (mul jitter (sub (mul (of_nat 2) unit) (of_nat 1)))

  abbrev with_delay : Backoff → Option ℕ → Option (Backoff × ℕ)
  with_delay b none = none
  with_delay b (some d) = some (b, d)

  -- The jittered delay, and the generator's state after it.
  unfoldable pub jittered : Backoff → ℕ → Option (Backoff × ℕ)
  jittered b base =
      let (b', unit) = random_unit b in
      with_delay b' (from_secs (mul (as_secs base) (scale_of b.jitter unit)))

  -- `none` is a panic of `Duration::from_secs_f64`.
  unfoldable pub next_delay : Backoff → Option (Backoff × ℕ)
  next_delay b = elim (from_secs (fmin (mul (as_secs b.next) b.factor) (as_secs b.limit))) [
    | none ↦ none
    | some next ↦
        let b' = record b { next = next } in
        if eq b.jitter (of_nat 0) then some (b', b.next) else jittered b' b.next
  ]

  unfoldable pub max_delay : Backoff → ℕ
  max_delay b = b.limit

  -- Backoff::default: 1 s doubling to 60 s, with 20 % jitter.
  unfoldable pub default : ℕ → Backoff
  unfolding new with_jitter
  default rng = with_jitter (new second (60 * second) (of_nat 2) rng) (div (of_nat 1) (of_nat 5))
