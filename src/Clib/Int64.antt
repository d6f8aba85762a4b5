-- ===== src/Clib/Int64.antt =====
-- C's `long` and `long long` as integers between -2 ^ 63 and 2 ^ 63 - 1, and the unsigned ones as the
-- numbers below 2 ^ 64. Results wrap round in two's complement.
use good_command.Common.{ℕ, ◌+◌, ◌-◌, ◌/◌, ◌%◌, ◌^◌, ◌<◌, ◌≡◌, arith, ltb, if◌then◌else◌}
use good_command.Common.Int.{ℤ, pos, negsuc, ◌+ℤ◌, ◌-ℤ◌, ◌*ℤ◌, pos_part, neg_part}

-- The integer that a pattern of 64 bits stands for: a conversion of an unsigned number.
unfoldable pub of_bits : ℕ → ℤ
of_bits r = if ltb r (2 ^ 63) then pos r else negsuc (2 ^ 64 - 1 - r)

-- The pattern of an integer: a conversion to an unsigned number.
unfoldable pub to_bits : ℤ → ℕ
to_bits (pos n) = n % 2 ^ 64
to_bits (negsuc n) = 2 ^ 64 - 1 - n % 2 ^ 64

unfoldable pub to_long : ℤ → ℤ
unfolding of_bits to_bits
to_long a = of_bits (to_bits a)

abbrev pub IsLong : ℤ → Type 0
IsLong (pos n) = n < 2 ^ 63
IsLong (negsuc n) = n < 2 ^ 63

unfoldable pub add : ℤ → ℤ → ℤ
unfolding to_long ◌+ℤ◌
add a b = to_long (a +ℤ b)

unfoldable pub sub : ℤ → ℤ → ℤ
unfolding to_long ◌-ℤ◌
sub a b = to_long (a -ℤ b)

unfoldable pub mul : ℤ → ℤ → ℤ
unfolding to_long ◌*ℤ◌
mul a b = to_long (a *ℤ b)

-- A division by a positive number, towards 0.
unfoldable pub quot : ℤ → ℕ → ℤ
unfolding ◌-ℤ◌
quot (pos a) n = pos (a / n)
quot (negsuc a) n = pos 0 -ℤ pos ((a + 1) / n)

pub to_long-IsLong : (a : ℤ) → IsLong (to_long a)
unfolding to_long
to_long-IsLong (pos n) = ground arith
to_long-IsLong (negsuc n) = ground arith

-- A value that fits is left as it is.
pub to_long-eq_self : (a : ℤ) → IsLong a → to_long a ≡ a
unfolding to_long
to_long-eq_self (pos n) h = ground arith
to_long-eq_self (negsuc n) h = ground arith

pub parts-IsLong : (a : ℤ) → pos_part a < 2 ^ 63 → neg_part a < 2 ^ 63 → IsLong a
parts-IsLong (pos n) h k = h
parts-IsLong (negsuc n) h k = omega arith
