-- ===== src/Cycles/Tests.antt =====
-- Runs of the programs of source/src/rdtsc/ on a counter that starts again from 0, and a witness.
use good_command.Common.{ℕ, ◌+◌, ◌-◌, ◌/◌, ◌%◌, ◌^◌, ◌≡◌, refl, value, arith}
use good_command.Common.Int.{pos, negsuc}
use good_command.Clib.Int64
use good_command.Cycles.{Machine, x86_64, aarch64, ceph_main, google_main, handler_prints}
use good_command.Cycles.Laws.{IsMachine, Reports, mains-ticks}

abbrev counting : Machine ℕ
counting = record {
  eax = λ w. w % 2 ^ 32;
  edx = λ w. w / 2 ^ 32 % 2 ^ 32;
  cntvct_el0 = λ w. w % 2 ^ 64;
}

abbrev doze : ℕ → ℕ
doze w = w + 2400000123

abbrev near_end : ℕ
near_end = 2 ^ 64 - 1000

run_ceph : ceph_main counting doze x86_64 near_end ≡ value (negsuc 999, pos 2399999123, pos 2400)
unfolding ceph_main
run_ceph = refl

run_google : google_main counting doze aarch64 7 ≡ value (pos 7, pos 2400000130, pos 2400)
unfolding google_main
run_google = refl

run_handler : handler_prints counting doze near_end ≡ 2400
unfolding handler_prints
run_handler = refl

counting-IsMachine : IsMachine counting (λ w. w)
counting-IsMachine = record { low = λ w. refl; high = λ w. refl; counter = λ w. refl }

mains-ticks_example :
    Reports x86_64
      (
        Int64.of_bits (near_end % 2 ^ 64),
        Int64.of_bits (doze near_end % 2 ^ 64),
        pos (2400000123 / 1000000),
      )
      (ceph_main counting doze x86_64 near_end)
      (google_main counting doze x86_64 near_end)
    × (handler_prints counting doze near_end ≡ 2400000123 / 1000000)
mains-ticks_example =
    mains-ticks counting doze (λ w. w) near_end 2400000123 x86_64 counting-IsMachine refl
      (omega arith)
