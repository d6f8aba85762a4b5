-- ===== src/Clib/Bits.antt =====
-- A bitwise or of numbers that share no bit is their sum.
use Prim.Native.Nat.{max, digits, bit_or, bit_or-bitwise}
use native.Mathlib.Nat.{pow-suc}
use good_command.Common.{ℕ, zero, suc, ◌+◌, ◌*◌, ◌/◌, ◌%◌, ◌^◌, ◌<◌, ◌≤◌, ◌≡◌, refl, ap, arith}

abbrev or_within : ℕ → ℕ → ℕ → ℕ
or_within fuel x y = digits (λ z. z) max fuel x y

-- The rounds that are given make no difference, if they are enough.
or_within_enough : (k l x y : ℕ) → x ≤ k → x ≤ l → or_within k x y ≡ or_within l x y
or_within_enough zero zero x y h h' = refl
or_within_enough zero (suc l) zero y h h' = refl
or_within_enough zero (suc l) (suc x) y h h' = absurd (omega arith)
or_within_enough (suc k) zero zero y h h' = refl
or_within_enough (suc k) zero (suc x) y h h' = absurd (omega arith)
or_within_enough (suc k) (suc l) zero y h h' = refl
or_within_enough (suc k) (suc l) (suc x) y h h' =
    omega (arith, or_within_enough k l (suc x / 2) (y / 2) (omega arith) (omega arith))

bit_or-half : (x y : ℕ) → bit_or x y ≡ bit_or (x / 2) (y / 2) * 2 + max (x % 2) (y % 2)
bit_or-half zero y = omega (arith, bit_or-bitwise 0 y, bit_or-bitwise 0 (y / 2))
bit_or-half (suc x) y = omega (
  arith,
  bit_or-bitwise (suc x) y,
  bit_or-bitwise (suc x / 2) (y / 2),
  or_within_enough x (suc x / 2) (suc x / 2) (y / 2) (omega arith) (omega arith),
)

bit_or-nothing : (k x : ℕ) → x ≤ k → bit_or x 0 ≡ x
bit_or-nothing k zero h = refl
bit_or-nothing zero (suc x) h = absurd (omega arith)
bit_or-nothing (suc k) (suc x) h =
    omega (arith, bit_or-half (suc x) 0, bit_or-nothing k (suc x / 2) (omega arith))

double : (q k : ℕ) → q * 2 ^ suc k ≡ q * 2 ^ k * 2
double q k = omega (arith, ap (λ (p : ℕ). q * p) (pow-suc 2 k))

-- The low `k` bits are free after a shift.
pub bit_or-shifted : (k q r : ℕ) → r < 2 ^ k → bit_or (q * 2 ^ k) r ≡ q * 2 ^ k + r
bit_or-shifted zero q r h = ground (arith, bit_or-nothing q q)
bit_or-shifted (suc k) q r h = ground (
  arith,
  bit_or-half (q * 2 ^ suc k) r,
  double q k,
  pow-suc 2 k,
  bit_or-shifted k q (r / 2) (omega arith),
)
