-- ===== src/Clock/Tests.antt =====
-- Runs of clock_gettime.c on a clock that counts nanoseconds, and a witness.
use mathlib.Core.Path.{subst}
use mathlib.Core.Option.{some-injective}
use good_command.Common.{
  ℕ, ◌+◌, ◌*◌, ◌/◌, ◌%◌, ◌^◌, ◌≡◌, refl, Option, none, some, [], ◌∷◌, arith, ltb, if◌then◌else◌,
}
use good_command.Common.Int.{pos}
use good_command.Clock
use good_command.Clock.{Timespec, success, failure, time_pass}
use good_command.Clock.Exact.{Reads}
use good_command.Clock.Laws.{IsClock, Measures, main-Measures}

abbrev reading : ℕ → Timespec
reading time = record { tv_sec = pos (time / 10 ^ 9); tv_nsec = pos (time % 10 ^ 9) }

abbrev tick : ℕ → Option Timespec × ℕ
tick time = (some (reading time), time)

abbrev doze : ℕ → ℕ
doze time = time + 1000900000

-- The nanoseconds go down from the first reading to the second, and the quotient is rounded up.
rounded_up :
    time_pass
      (record { tv_sec = pos 5; tv_nsec = pos 999900000 })
      (record { tv_sec = pos 7; tv_nsec = pos 800000 })
    ≡ pos 1001
unfolding time_pass
rounded_up = refl

run_tick :
    (Clock.main tick doze 999800000).printed
    ≡ pos 1001 ∷ pos 1000 ∷ pos 1000 ∷ pos 1000 ∷ pos 1000 ∷ []
unfolding Clock.main
run_tick = refl

-- A clock that fails after three seconds.
abbrev broken : ℕ → Option Timespec × ℕ
broken time = (if ltb time (3 * 10 ^ 9) then some (reading time) else none, time)

run_broken :
    Clock.main broken doze 0
    ≡ record { exit = failure; printed = pos 1000 ∷ pos 1000 ∷ []; system = 3002700000 }
unfolding Clock.main
run_broken = refl

tick-IsClock : IsClock tick doze (λ time. time)
tick-IsClock = record {
  reads = λ w t h. (
    w,
    subst (λ s. Reads s w) (some-injective (reading w) t h)
        record {
          n = w / 10 ^ 9;
          m = w % 10 ^ 9;
          seconds = refl;
          nanoseconds = refl;
          within = omega arith;
          same = omega arith;
        },
    omega arith,
    omega arith,
  );
  runs = λ w. omega arith;
  rests = λ w. omega arith;
}

main-Measures_example : Measures (λ time. time) 5 999800000 (Clock.main tick doze 999800000)
unfolding Clock.main
main-Measures_example = main-Measures tick doze (λ time. time) 999800000 tick-IsClock (omega arith)
