-- ===== src/Neon.antt =====
-- source/src/instruction_set/neon_hello_world.c: sixteen bytes in a vector register. The intrinsics
-- are a parameter.
pub mod Laws
mod Tests
use good_command.Common.{
  ℕ, ◌+◌, ◌/◌, ◌%◌, List, [], ◌∷◌, ◌++◌, zero, suc, ltb, if◌then◌else◌, length, get_elem?,
  match_option, Exec, value, trap, ◌>>=◌,
}
use good_command.Clib.Bytes.{codes}
use good_command.Clib.Print.{print_unsigned}

-- The intrinsics of arm_neon.h, with the sixteen bytes of memory that they load and store.
pub record Intrinsics : Type 1 where
  pub Vector : Type 0
  pub vmovq_n_u8 : ℕ → Vector
  pub vaddq_u8 : Vector → Vector → Vector
  pub vld1q_u8 : List ℕ → Vector
  pub vst1q_u8 : Vector → List ℕ

-- `%02d` of a byte
unfoldable pub two_digits : ℕ → List ℕ
unfolding print_unsigned
two_digits n = let text = print_unsigned n in if ltb (length text) 2 then b'0' ∷ text else text

-- The loop, with `rounds` bytes to come; a read outside the array traps.
unfoldable pub numbers : (rounds i : ℕ) → List ℕ → Exec (List ℕ)
unfolding two_digits
numbers zero i p = value []
numbers (suc rounds) i p =
    let rest = numbers rounds (i + 1) p in
    match_option (get_elem? p i) trap (λ c. rest >>= λ text. value (two_digits c ++ b' ' ∷ text))

-- The array of `main`.
abbrev uint8_data : List ℕ
uint8_data = 1 ∷ 2 ∷ 3 ∷ 4 ∷ 5 ∷ 6 ∷ 7 ∷ 8 ∷ 9 ∷ 10 ∷ 11 ∷ 12 ∷ 13 ∷ 14 ∷ 15 ∷ 16 ∷ []

module _ (neon : Intrinsics) where
  open neon use {Vector, vmovq_n_u8, vaddq_u8, vld1q_u8, vst1q_u8}

  -- The value that `*data` gets.
  unfoldable pub add3 : Vector → Vector
  add3 data' = vaddq_u8 data' (vmovq_n_u8 3)

  unfoldable pub print_uint8 : Vector → List ℕ → Exec (List ℕ)
  unfolding numbers
  print_uint8 vector name =
      numbers 16 0 (vst1q_u8 vector) >>= λ text. value (name ++ (codes " = " ++ (text ++ 10 ∷ [])))

  -- What is printed for the bytes `p`.
  unfoldable pub run : List ℕ → Exec (List ℕ)
  unfolding add3 print_uint8
  run p = do
    let vector = vld1q_u8 p
    before ← print_uint8 vector (codes "data")
    after ← print_uint8 (add3 vector) (codes "data (new)")
    value (before ++ after)

  unfoldable pub main : Exec (List ℕ)
  unfolding run
  main = run uint8_data
