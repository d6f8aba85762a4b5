-- ===== src/Cycles.antt =====
-- source/src/rdtsc/: ceph_cycle.c, google_benchmark_cycle.c and rdtsc.c, which count the ticks of the
-- processor in a second.
pub mod Laws
mod Tests
use Prim.Native.Nat.{bit_or}
use good_command.Common.{
  ℕ, ◌+◌, ◌-◌, ◌*◌, ◌/◌, ◌%◌, ◌^◌, Exec, value, trap, ◌>>=◌, ◌==◌, if◌then◌else◌,
}
use good_command.Common.Int.{ℤ}
use good_command.Clib.Int64

-- The targets that the preprocessor tells apart, of Linux, where `long` has the size of a register; on
-- another one it has so many bits.
pub data Arch : Type 0 where
  i386 : Arch
  x86_64 : Arch
  aarch64 : Arch
  other : (long_bits : ℕ) → Arch

unfoldable pub long_bits : Arch → ℕ
long_bits i386 = 32
long_bits x86_64 = 64
long_bits aarch64 = 64
long_bits (other bits) = bits

-- What the instructions read at a moment: `rdtsc` the registers eax and edx, and `mrs` the register
-- cntvct_el0.
pub record Machine (World : Type 0) : Type 0 where
  pub eax : World → ℕ
  pub edx : World → ℕ
  pub cntvct_el0 : World → ℕ

-- Two registers that hold one number of 64 bits: the constraint "=A" of i386.
unfoldable pub pair : ℕ → ℕ → ℕ
pair lo hi = hi * 2 ^ 32 + lo

-- `((uint64_t)hi << 32) | lo`
unfoldable pub join : ℕ → ℕ → ℕ
join hi lo = bit_or (hi * 2 ^ 32 % 2 ^ 64) lo

-- What is printed: the two readings, and the millions of ticks between them.
abbrev pub Report : Type 0
Report = ℤ × ℤ × ℤ

unfoldable pub report : ℤ → ℤ → Report
unfolding Int64.sub Int64.quot
report t1 t2 = (t1, t2, Int64.quot (Int64.sub t2 t1) 1000000)

-- `printf` with "%ld" for each number, which are of 64 bits: undefined where `long` has another size.
unfoldable pub print_report : Arch → Report → Exec Report
unfolding long_bits
print_report arch r = if long_bits arch == 64 then value r else trap

module _ {World : Type 0} (machine : Machine World) where
  open machine use {eax, edx, cntvct_el0}

  -- ceph_cycle.c
  unfoldable pub rdtsc : Arch → World → ℕ
  unfolding pair join Int64.to_long
  rdtsc i386 w = Int64.to_bits (Int64.of_bits (pair (eax w) (edx w)))
  rdtsc x86_64 w = join (edx w) (eax w)
  rdtsc aarch64 w = cntvct_el0 w
  rdtsc (other bits) w = 0

  -- google_benchmark_cycle.c; on another target the function ends with no value.
  unfoldable pub now : Arch → World → Exec ℤ
  unfolding pair join Int64.of_bits
  now i386 w = value (Int64.of_bits (pair (eax w) (edx w)))
  now x86_64 w = value (Int64.of_bits (join (edx w) (eax w)))
  now aarch64 w = value (Int64.of_bits (cntvct_el0 w))
  now (other bits) w = trap

  -- rdtsc.c, for i386.
  unfoldable pub currentcycles : World → ℕ
  unfolding pair
  currentcycles w = pair (eax w) (edx w)

  -- `sleep (1)`, or `alarm (1)` and the waiting for its signal.
  module _ (sleep : World → World) where
    unfoldable pub ceph_main : Arch → World → Exec Report
    unfolding rdtsc report print_report Int64.of_bits
    ceph_main arch w =
        print_report arch
          (report (Int64.of_bits (rdtsc arch w)) (Int64.of_bits (rdtsc arch (sleep w))))

    unfoldable pub google_main : Arch → World → Exec Report
    unfolding now report print_report
    google_main arch w = do
      t1 ← now arch w
      t2 ← now arch (sleep w)
      print_report arch (report t1 t2)

    -- `main` of rdtsc.c up to the end of `handler`, which prints a number, without a sign, and kills
    -- the process.
    unfoldable pub handler_prints : World → ℕ
    unfolding currentcycles
    handler_prints w =
        let t1 = currentcycles w in
        let t2 = currentcycles (sleep w) in (t2 + 2 ^ 64 - t1) % 2 ^ 64 / 1000000
