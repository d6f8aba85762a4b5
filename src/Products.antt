-- ===== src/Products.antt =====
-- source/src/instruction_set/: float_mul.c, float_mul_neon.c and float_mul_asm_neon.c, which multiply
-- and print. The functions that the three share are those of the first.
mod Tests
use good_command.Common.{ℕ, ◌+◌, ◌*◌, ◌%◌, ◌^◌, List, [], ◌∷◌, ◌++◌}
use good_command.Common.Int.{ℤ, pos, negsuc}
use good_command.Clib.Int32
use good_command.Clib.Int64
use good_command.Clib.Print.{print_int, print_long, print_unsigned}

-- `%d`, `%ld`, PRIu32 and PRIu64, each with an end of line; the last has a blank before it.
unfoldable pub mul_int : ℤ → ℤ → List ℕ
unfolding Int32.mul print_int
mul_int a b = print_int (Int32.mul a b) ++ 10 ∷ []

unfoldable pub mul_long : ℤ → ℤ → List ℕ
unfolding Int64.mul print_long
mul_long a b = print_long (Int64.mul a b) ++ 10 ∷ []

unfoldable pub mul_uint32 : ℕ → ℕ → List ℕ
unfolding print_unsigned
mul_uint32 a b = print_unsigned (a * b % 2 ^ 32) ++ 10 ∷ []

unfoldable pub mul_uint64 : ℕ → ℕ → List ℕ
unfolding print_unsigned
mul_uint64 a b = print_unsigned (a * b % 2 ^ 64) ++ b' ' ∷ 10 ∷ []

-- The floating types, with what `printf` makes of them: a `long double` printed by `%ld`, and the
-- `long` of a `float16_t` by `%d`, which C leaves undefined.
pub record Floats : Type 1 where
  pub Double : Type 0
  pub LongDouble : Type 0
  pub Float16 : Type 0
  pub thousandths : ℕ → Double
  pub widen : Double → LongDouble
  pub times : Double → Double → Double
  pub times_long : LongDouble → LongDouble → LongDouble
  pub times_half : Float16 → Float16 → Float16
  pub truncate : Float16 → ℤ
  pub show : Double → List ℕ
  pub show_as_long : LongDouble → List ℕ
  pub show_as_int : ℤ → List ℕ

module _ (floats : Floats) where
  open floats use {
    Double, LongDouble, Float16, thousandths, widen, times, times_long, times_half, truncate, show,
    show_as_long, show_as_int,
  }

  unfoldable pub mul_double : Double → Double → List ℕ
  mul_double a b = show (times a b) ++ 10 ∷ []

  unfoldable pub mul_long_double : LongDouble → LongDouble → List ℕ
  mul_long_double a b = show_as_long (times_long a b) ++ 10 ∷ []

  -- float_mul_neon.c; the instruction behind it in float_mul_asm_neon.c changes a register that the
  -- compiler is not told of.
  unfoldable pub mul_float16 : Float16 → Float16 → List ℕ
  mul_float16 a b = show_as_int (truncate (times_half a b)) ++ 10 ∷ []

  -- What `main` of each of the three prints.
  unfoldable pub main : List ℕ
  unfolding mul_int mul_long mul_double mul_long_double mul_uint32 mul_uint64
  main =
      mul_int (pos 3) (pos 4)
      ++ (mul_long (pos 2222) (pos 3333)
          ++ (mul_double (thousandths 222222) (thousandths 333333)
              ++ (mul_long_double (widen (thousandths 222222)) (widen (thousandths 333333))
                  ++ (mul_uint32 222 333 ++ mul_uint64 222 333))))
