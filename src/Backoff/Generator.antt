-- ===== src/Backoff/Generator.antt =====
-- The jitter's random numbers: xorshift64* of crates/mqtt/v3/src/backoff.rs.
use Prim.Native.Nat.{bit_xor, bit_xor-bitwise, digits, differ}
use blazebee.Base.{ℕ, zero, suc, ◌*◌, ◌/◌, ◌%◌, ◌^◌, ◌≤◌, ◌<◌, ◌≡◌, ◌≢◌, sym, ◌∙◌, arith}
use native.Mathlib.Decide.{ℕ_discrete}
use native.Mathlib.Nat.{pow-suc}
use blazebee.Backoff.{shift_12, shift_25, shift_27, xorshift, seed, u64_mod}

abbrev xor_digits : ℕ → ℕ → ℕ → ℕ
xor_digits = digits (λ b. b) differ

differ-eq_zero : (x y : ℕ) → differ x y ≡ 0 → x ≡ y
differ-eq_zero zero y h = sym h
differ-eq_zero (suc x) zero h = h
differ-eq_zero (suc x) (suc y) h = omega (arith, differ-eq_zero x y h)

differ-le_one : (x y : ℕ) → x < 2 → y < 2 → differ x y < 2
differ-le_one zero y hx hy = hy
differ-le_one (suc x) zero hx hy = hx
differ-le_one (suc x) (suc y) hx hy = differ-le_one x y (omega arith) (omega arith)

xor_digits-eq_zero : (n a b : ℕ) → a ≤ n → xor_digits n a b ≡ 0 → a ≡ b
xor_digits-eq_zero zero zero b h e = sym e
xor_digits-eq_zero zero (suc a) b h e = absurd (omega arith)
xor_digits-eq_zero (suc n) zero b h e = sym e
xor_digits-eq_zero (suc n) (suc a) b h e = omega (
  arith,
  xor_digits-eq_zero n (suc a / 2) (b / 2) (omega arith) (omega arith),
  differ-eq_zero (suc a % 2) (b % 2) (omega arith),
)

xor_digits-lt : (n k a b : ℕ) → a ≤ n → a < 2 ^ k → b < 2 ^ k → xor_digits n a b < 2 ^ k
xor_digits-lt zero k zero b h ha hb = hb
xor_digits-lt zero k (suc a) b h ha hb = absurd (omega arith)
xor_digits-lt (suc n) k zero b h ha hb = hb
xor_digits-lt (suc n) zero (suc a) b h ha hb = absurd (omega arith)
xor_digits-lt (suc n) (suc k) (suc a) b h ha hb = omega (
  arith,
  pow-suc 2 k,
  xor_digits-lt n k (suc a / 2) (b / 2) (omega arith) (omega (arith, pow-suc 2 k))
      (omega (arith, pow-suc 2 k)),
  differ-le_one (suc a % 2) (b % 2) (omega arith) (omega arith),
)

bit_xor-eq_zero : (a b : ℕ) → bit_xor a b ≡ 0 → a ≡ b
bit_xor-eq_zero a b e = xor_digits-eq_zero a a b (omega arith) (sym (bit_xor-bitwise a b) ∙ e)

bit_xor-lt : (k a b : ℕ) → a < 2 ^ k → b < 2 ^ k → bit_xor a b < 2 ^ k
bit_xor-lt k a b ha hb = rw (bit_xor-bitwise a b) (xor_digits-lt a k a b (omega arith) ha hb)

bit_xor-pos : (a b : ℕ) → a ≢ b → 0 < bit_xor a b
bit_xor-pos a b ne = elim (ℕ_discrete (bit_xor a b) 0) [
  | yes e ↦ absurd (ne (bit_xor-eq_zero a b e))
  | no nonzero ↦ omega arith
]

-- A state that the generator can be in.
abbrev pub IsState : ℕ → Type 0
IsState x = (0 < x) × (x < 2 ^ 64)

shift_12-IsState : (x : ℕ) → IsState x → IsState (shift_12 x)
unfolding shift_12
shift_12-IsState x h =
    (bit_xor-pos x (x / 2 ^ 12) (λ e. omega arith), bit_xor-lt 64 x (x / 2 ^ 12) h.1 (omega arith))

shift_25-IsState : (x : ℕ) → IsState x → IsState (shift_25 x)
unfolding shift_25
shift_25-IsState x h = (
  bit_xor-pos x (x * 2 ^ 25 % u64_mod) (λ e. omega arith),
  bit_xor-lt 64 x (x * 2 ^ 25 % u64_mod) h.1 (omega arith),
)

shift_27-IsState : (x : ℕ) → IsState x → IsState (shift_27 x)
unfolding shift_27
shift_27-IsState x h =
    (bit_xor-pos x (x / 2 ^ 27) (λ e. omega arith), bit_xor-lt 64 x (x / 2 ^ 27) h.1 (omega arith))

-- From a state that is not zero the generator never falls into zero, from which it would not come out, and stays
-- within 64 bits.
pub xorshift-IsState : (x : ℕ) → IsState x → IsState (xorshift x)
unfolding xorshift
xorshift-IsState x h = shift_27-IsState _ (shift_25-IsState _ (shift_12-IsState x h))

-- Nor does it start there.
pub seed-IsState : (s : ℕ) → s < 2 ^ 64 → IsState (seed s)
unfolding seed
seed-IsState s h = ground arith
