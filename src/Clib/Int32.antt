-- ===== src/Clib/Int32.antt =====
-- C's `int` as an integer between -2 ^ 31 and 2 ^ 31 - 1. The results of `+`, `-` and `*` wrap round
-- in two's complement. A division by 0, and one whose quotient does not fit, traps.
pub mod Bounds
use good_command.Common.{
  ℕ, ◌+◌, ◌-◌, ◌*◌, ◌/◌, ◌%◌, ◌^◌, ◌<◌, ◌≡◌, ◌&&◌, arith, ltb, leb, ◌==◌, if◌then◌else◌, Exec,
  value, trap,
}
use mathlib.Core.Path.{ap₂}
use native.Mathlib.Nat
use good_command.Common.Int.{
  ℤ, pos, negsuc, ◌+ℤ◌, ◌-ℤ◌, ◌*ℤ◌, ltb_ℤ, nat_abs, sub_ℕ, pos_part, neg_part,
}

-- The integer that a pattern of 32 bits stands for.
unfoldable pub of_bits : ℕ → ℤ
of_bits r = if ltb r (2 ^ 31) then pos r else negsuc (2 ^ 32 - 1 - r)

unfoldable pub to_int : ℤ → ℤ
unfolding of_bits
to_int (pos n) = of_bits (n % 2 ^ 32)
to_int (negsuc n) = of_bits (2 ^ 32 - 1 - n % 2 ^ 32)

abbrev pub IsInt : ℤ → Type 0
IsInt (pos n) = n < 2 ^ 31
IsInt (negsuc n) = n < 2 ^ 31

unfoldable pub add : ℤ → ℤ → ℤ
unfolding to_int ◌+ℤ◌
add a b = to_int (a +ℤ b)

unfoldable pub sub : ℤ → ℤ → ℤ
unfolding to_int ◌-ℤ◌
sub a b = to_int (a -ℤ b)

unfoldable pub mul : ℤ → ℤ → ℤ
unfolding to_int ◌*ℤ◌
mul a b = to_int (a *ℤ b)

-- The quotient is truncated towards 0.
unfoldable pub div : ℤ → ℤ → Exec ℤ
unfolding ◌-ℤ◌
div a b =
    let q = nat_abs a / nat_abs b in
    if nat_abs b == 0
    then trap
    else if (ltb_ℤ a (pos 0) && ltb_ℤ (pos 0) b)
    then value (pos 0 -ℤ pos q)
    else if (ltb_ℤ (pos 0) a && ltb_ℤ b (pos 0))
    then value (pos 0 -ℤ pos q)
    else if leb (2 ^ 31) q
    then trap
    else value (pos q)

pub to_int-IsInt : (a : ℤ) → IsInt (to_int a)
unfolding to_int
to_int-IsInt (pos n) = ground arith
to_int-IsInt (negsuc n) = ground arith

-- A value that fits is left as it is.
pub to_int-eq_self : (a : ℤ) → IsInt a → to_int a ≡ a
unfolding to_int
to_int-eq_self (pos n) h = ground arith
to_int-eq_self (negsuc n) h = ground arith

pub add_comm : (a b : ℤ) → add a b ≡ add b a
unfolding add
add_comm a b =
    ap₂ (λ x y. to_int (sub_ℕ x y)) (Nat.add_comm (pos_part a) (pos_part b))
      (Nat.add_comm (neg_part a) (neg_part b))

pub mul_comm : (a b : ℤ) → mul a b ≡ mul b a
unfolding mul
mul_comm a b =
    let same : pos_part a * pos_part b + neg_part a * neg_part b
        ≡ pos_part b * pos_part a + neg_part b * neg_part a =
      omega arith in
    let mixed : pos_part a * neg_part b + neg_part a * pos_part b
        ≡ pos_part b * neg_part a + neg_part b * pos_part a =
      omega arith in
    ap₂ (λ x y. to_int (sub_ℕ x y)) same mixed
