-- ===== src/Products/Tests.antt =====
-- Runs of float_mul.c with numbers of thousandths for its floating types.
use good_command.Common.{ℕ, ◌*◌, ◌/◌, ◌≡◌, refl, [], ◌∷◌}
use good_command.Common.Int.{pos}
use good_command.Clib.Bytes.{codes}
use good_command.Clib.Print.{print_unsigned}
use good_command.Products
use good_command.Products.{Floats, mul_int, mul_long, mul_uint32, mul_uint64, mul_float16}

abbrev fixed : Floats
fixed = record {
  Double = ℕ;
  LongDouble = ℕ;
  Float16 = ℕ;
  thousandths = λ n. n;
  widen = λ n. n;
  times = λ a b. a * b / 1000;
  times_long = λ a b. a * b / 1000;
  times_half = λ a b. a * b / 1000;
  truncate = λ n. pos (n / 1000);
  show = λ n. print_unsigned (n / 1000);
  show_as_long = print_unsigned;
  show_as_int = λ v. b'?' ∷ [];
}

run_main : Products.main fixed ≡ codes "12\n7405926\n74073\n74073925\n73926\n73926 \n"
unfolding Products.main print_unsigned
run_main = refl

run_overflow : mul_int (pos 65536) (pos 98305) ≡ codes "-2147418112\n"
unfolding mul_int
run_overflow = refl

run_half : mul_float16 fixed 1500 2000 ≡ b'?' ∷ 10 ∷ []
unfolding mul_float16
run_half = refl
