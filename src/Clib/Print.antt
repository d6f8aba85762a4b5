-- ===== src/Clib/Print.antt =====
-- What `sprintf` writes for `%d`.
pub mod Laws
pub mod Short
use good_command.Common.{
  ℕ, zero, suc, ◌+◌, ◌/◌, ◌%◌, Bool, true, false, List, [], ◌∷◌, ltb, if◌then◌else◌,
}
use good_command.Common.Int.{ℤ, pos, negsuc}
use good_command.Clib.Scan.Decimal.{numeral}

-- The digits of `n`, at most one more than `k`, in front of those of `acc`.
unfoldable pub digits_of : (k n : ℕ) → List ℕ → List ℕ
digits_of zero n acc = n ∷ acc
digits_of (suc k) n acc =
    let more = digits_of k (n / 10) (n % 10 ∷ acc) in if ltb n 10 then n ∷ acc else more

-- A number of `int` has at most ten digits.
unfoldable pub print_int : ℤ → List ℕ
unfolding digits_of
print_int (pos n) = numeral (digits_of 9 n []) []
print_int (negsuc n) = b'-' ∷ numeral (digits_of 9 (n + 1) []) []

-- `%ld`: at most nineteen digits.
unfoldable pub print_long : ℤ → List ℕ
unfolding digits_of
print_long (pos n) = numeral (digits_of 18 n []) []
print_long (negsuc n) = b'-' ∷ numeral (digits_of 18 (n + 1) []) []

-- `%u` and its kin, for numbers of up to 64 bits: at most twenty digits.
unfoldable pub print_unsigned : ℕ → List ℕ
unfolding digits_of
print_unsigned n = numeral (digits_of 19 n []) []
