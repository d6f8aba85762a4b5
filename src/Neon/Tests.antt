-- ===== src/Neon/Tests.antt =====
-- A run of neon_hello_world.c on vectors that are lists, and a witness.
use good_command.Common.{ℕ, ◌+◌, ◌%◌, ◌≡◌, refl, List, [], ◌∷◌, ◌++◌, map, arith, replicate, value}
use good_command.Clib.Bytes.{codes}
use good_command.Clib.Print.{print_unsigned}
use good_command.Neon
use good_command.Neon.{Intrinsics}
use good_command.Neon.Laws.{IsNeon, add_lanes, texts, run-texts}

abbrev lists : Intrinsics
lists = record {
  Vector = List ℕ;
  vmovq_n_u8 = λ n. replicate 16 n;
  vaddq_u8 = add_lanes;
  vld1q_u8 = λ p. p;
  vst1q_u8 = λ v. v;
}

run_main :
    Neon.main lists
    ≡ value (
        codes
          "data = 01 02 03 04 05 06 07 08 09 10 11 12 13 14 15 16 \ndata (new) = 04 05 06 07 08 09 10 11 12 13 14 15 16 17 18 19 \n")
unfolding Neon.main add_lanes print_unsigned
run_main = refl

lists-IsNeon : IsNeon lists
lists-IsNeon = record { moves = λ n h. refl; adds = λ a b. refl; loads = λ p h. refl }

-- Bytes of one, two and three digits, some of which the addition takes past 99 and 255.
abbrev bytes : List ℕ
bytes = 1 ∷ 2 ∷ 3 ∷ 4 ∷ 5 ∷ 6 ∷ 7 ∷ 8 ∷ 9 ∷ 10 ∷ 11 ∷ 12 ∷ 13 ∷ 98 ∷ 200 ∷ 254 ∷ []

run-texts_example :
    Neon.run lists bytes
    ≡ value (
        codes "data = "
        ++ (texts bytes
            ++ (codes "\ndata (new) = " ++ (texts (map (λ c. (c + 3) % 256) bytes) ++ codes "\n"))))
run-texts_example = run-texts lists bytes lists-IsNeon record { size = refl; bytes = omega arith }
