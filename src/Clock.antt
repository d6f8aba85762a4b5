-- ===== src/Clock.antt =====
-- source/src/rdtsc/clock_gettime.c: how long a second of sleep is, in milliseconds, five times.
pub mod Exact
pub mod Laws
mod Tests
use good_command.Common.{ℕ, zero, suc, Option, none, some, List, [], ◌∷◌, match_option}
use good_command.Common.Int.{ℤ, pos}
use good_command.Clib.Int64

-- struct timespec
pub record Timespec : Type 0 where
  pub tv_sec : ℤ
  pub tv_nsec : ℤ

-- The number of milliseconds that is printed for two readings.
unfoldable pub time_pass : Timespec → Timespec → ℤ
unfolding Int64.add Int64.sub Int64.mul Int64.quot
time_pass t1 t2 =
    Int64.add (Int64.mul (Int64.sub t2.tv_sec t1.tv_sec) (pos 1000))
      (Int64.quot (Int64.sub t2.tv_nsec t1.tv_nsec) 1000000)

-- `main` returns 0, or exits with 1 after a message.
pub data Exit : Type 0 where
  success : Exit
  failure : Exit

pub record End (World : Type 0) : Type 0 where
  pub exit : Exit
  pub printed : List ℤ
  pub system : World

-- `clock_gettime` for the time of day, `none` for -1, and `sleep (1)`.
module _ {World : Type 0} (clock_gettime : World → Option Timespec × World)
    (sleep : World → World) where
  -- The rounds that are left.
  unfoldable pub measure_loop : ℕ → World → End World
  unfolding time_pass
  measure_loop zero w = record { exit = success; printed = []; system = w }
  measure_loop (suc rounds) w =
      let first = clock_gettime w in
      let second = clock_gettime (sleep first.1) in
      let rest = measure_loop rounds second.1 in
      match_option first.0 record { exit = failure; printed = []; system = first.1 }
        λ t1.
          match_option second.0 record { exit = failure; printed = []; system = second.1 }
            λ t2. record {
              exit = rest.exit;
              printed = time_pass t1 t2 ∷ rest.printed;
              system = rest.system;
            }

  unfoldable pub main : World → End World
  unfolding measure_loop
  main w = measure_loop 5 w
