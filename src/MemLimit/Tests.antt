-- ===== src/MemLimit/Tests.antt =====
-- Runs of mem-limit.c on systems that count their blocks, one that refuses what it does not have and one
-- that kills, and a witness.
use good_command.Common.{ℕ, ◌-◌, ◌≡◌, refl, Bool, true, [], ◌∷◌, leb, arith}
use good_command.MemLimit
use good_command.MemLimit.{starting, malloc_failed, allocated, returns, sleeps, killed}
use good_command.MemLimit.Laws.{IsLimited, expected, main-expected}

abbrev counted : ℕ → Bool × ℕ
counted free = (leb 1 free, free - 1)

abbrev kept : ℕ → Bool × ℕ
kept free = (true, free)

abbrev promised : ℕ → Bool × ℕ
promised free = (true, free)

run_short : MemLimit.main counted kept 2 ≡ record {
  fate = returns;
  printed = starting ∷ allocated 0 1 ∷ allocated 1 2 ∷ malloc_failed 2 ∷ [];
  system = 0;
}
unfolding MemLimit.main
run_short = refl

run_killed : MemLimit.main promised counted 4 ≡ record {
  fate = killed;
  printed = starting ∷ allocated 0 1 ∷ allocated 1 2 ∷ allocated 2 3 ∷ allocated 3 4 ∷ [];
  system = 0;
}
unfolding MemLimit.main
run_killed = refl

run_long : (MemLimit.main counted kept 60).fate ≡ sleeps
unfolding MemLimit.main
run_long = refl

promised-IsLimited : IsLimited promised counted (λ free. free) true
promised-IsLimited = record {
  grants = λ w n h. refl;
  keeps = λ w n h. ground (arith, h);
  takes = λ w n h. omega (arith, h);
  short = λ w h. refl;
  stays = λ w h. (h, omega (arith, h));
  kills = λ w h e. ground (arith, h);
}

main-expected_example :
    ((MemLimit.main promised counted 4).printed ≡ starting ∷ (expected true 50 4 0).0)
    × ((MemLimit.main promised counted 4).fate ≡ (expected true 50 4 0).1)
    × ((MemLimit.main promised counted 4).system ≡ 4 - 50)
main-expected_example = main-expected promised counted (λ free. free) true 4 promised-IsLimited
