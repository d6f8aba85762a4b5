-- ===== src/Cycles/Laws.antt =====
-- The ticks that the three programs of source/src/rdtsc/ print.
use good_command.Common.{
  ℕ, ◌+◌, ◌*◌, ◌/◌, ◌%◌, ◌^◌, ◌<◌, ◌≡◌, refl, ap, ◌∙◌, Exec, value, trap, arith, ◌==◌,
  if◌then◌else◌,
}
use good_command.Common.Int.{pos, ◌-ℤ◌}
use good_command.Clib.Bits.{bit_or-shifted}
use good_command.Clib.Int64
use good_command.Cycles.{
  Arch, i386, x86_64, aarch64, other, Machine, pair, join, Report, report, rdtsc, now,
  currentcycles, print_report, long_bits, ceph_main, google_main, handler_prints,
}

pair-ticks : (c : ℕ) → pair (c % 2 ^ 32) (c / 2 ^ 32 % 2 ^ 32) ≡ c % 2 ^ 64
unfolding pair
pair-ticks c = omega arith

join-ticks : (c : ℕ) → join (c / 2 ^ 32 % 2 ^ 32) (c % 2 ^ 32) ≡ c % 2 ^ 64
unfolding join
join-ticks c =
    let shifted : c / 2 ^ 32 % 2 ^ 32 * 2 ^ 32 % 2 ^ 64 ≡ c / 2 ^ 32 % 2 ^ 32 * 2 ^ 32 =
      omega arith in
    rw shifted (bit_or-shifted 32 (c / 2 ^ 32 % 2 ^ 32) (c % 2 ^ 32) (omega arith) ∙ omega arith)

sub-apart :
    (a b d : ℕ)
    → a < 2 ^ 64
    → b < 2 ^ 64
    → d < 2 ^ 63
    → b ≡ (a + d) % 2 ^ 64
    → Int64.sub (Int64.of_bits b) (Int64.of_bits a) ≡ pos d
unfolding Int64.sub Int64.to_bits Int64.of_bits Int64.to_long ◌-ℤ◌
sub-apart a b d ha hb hd e = ground arith

-- A difference below 2 ^ 63 is found, also when the counter has started again from 0.
sub-ticks :
    (c d : ℕ)
    → d < 2 ^ 63
    → Int64.sub (Int64.of_bits ((c + d) % 2 ^ 64)) (Int64.of_bits (c % 2 ^ 64)) ≡ pos d
sub-ticks c d h =
    sub-apart (c % 2 ^ 64) ((c + d) % 2 ^ 64) d (omega arith) (omega arith) h (omega arith)

report-ticks :
    (c d : ℕ)
    → d < 2 ^ 63
    → report (Int64.of_bits (c % 2 ^ 64)) (Int64.of_bits ((c + d) % 2 ^ 64))
      ≡ (Int64.of_bits (c % 2 ^ 64), Int64.of_bits ((c + d) % 2 ^ 64), pos (d / 1000000))
unfolding report Int64.quot
report-ticks c d h = rw (sub-ticks c d h) refl

-- The registers hold the number of ticks, by its lowest 64 bits.
pub record IsMachine {World : Type 0} (machine : Machine World) (ticks : World → ℕ) : Type 0 where
  pub low : (w : World) → machine.eax w ≡ ticks w % 2 ^ 32
  pub high : (w : World) → machine.edx w ≡ ticks w / 2 ^ 32 % 2 ^ 32
  pub counter : (w : World) → machine.cntvct_el0 w ≡ ticks w % 2 ^ 64

-- Where `long` has 64 bits both programs report `right`, on a known target. On i386 it has 32, and to print
-- the numbers is undefined. On another one the first program has nothing but 0 to report, and the second
-- reads a value that no statement has returned.
abbrev pub Reports : Arch → Report → Exec Report → Exec Report → Type 0
Reports i386 right ceph google = (ceph ≡ trap) × (google ≡ trap)
Reports (other bits) right ceph google =
    (ceph ≡ (if bits == 64 then value (pos 0, pos 0, pos 0) else trap)) × (google ≡ trap)
Reports arch right ceph google = (ceph ≡ value right) × (google ≡ value right)

module _ {World : Type 0} (machine : Machine World) (sleep : World → World) (ticks : World → ℕ)
    (is : IsMachine machine ticks) where
  pair-read : (w : World) → pair (machine.eax w) (machine.edx w) ≡ ticks w % 2 ^ 64
  pair-read w = rw (is.low w, is.high w) (pair-ticks (ticks w))

  join-read : (w : World) → join (machine.edx w) (machine.eax w) ≡ ticks w % 2 ^ 64
  join-read w = rw (is.low w, is.high w) (join-ticks (ticks w))

  module _ (w : World) (d : ℕ) (later : ticks (sleep w) ≡ ticks w + d) (small : d < 2 ^ 63) where
    right : Report
    right = (
      Int64.of_bits (ticks w % 2 ^ 64),
      Int64.of_bits (ticks (sleep w) % 2 ^ 64),
      pos (d / 1000000),
    )

    report-right :
        report (Int64.of_bits (ticks w % 2 ^ 64)) (Int64.of_bits (ticks (sleep w) % 2 ^ 64)) ≡ right
    unfolding right
    report-right = rw later (report-ticks (ticks w) d small)

    mains-Reports :
        (arch : Arch)
        → Reports arch right (ceph_main machine sleep arch w) (google_main machine sleep arch w)
    unfolding ceph_main google_main now rdtsc report print_report long_bits Int64.quot
    mains-Reports i386 = (refl, refl)
    mains-Reports x86_64 = (
      rw (join-read w, join-read (sleep w)) (ap value report-right),
      rw (join-read w, join-read (sleep w)) (ap value report-right),
    )
    mains-Reports aarch64 = (
      rw (is.counter w, is.counter (sleep w)) (ap value report-right),
      rw (is.counter w, is.counter (sleep w)) (ap value report-right),
    )
    mains-Reports (other bits) = (refl, refl)

    handler-ticks : handler_prints machine sleep w ≡ d / 1000000
    unfolding handler_prints currentcycles
    handler-ticks =
        rw (pair-read w, pair-read (sleep w), later) (ap (λ (n : ℕ). n / 1000000) (omega arith))

-- On a machine whose registers hold the number of ticks, when `d` ticks pass between the readings,
-- fewer than 2 ^ 63: on x86_64 and aarch64 ceph_cycle.c and google_benchmark_cycle.c report the same, the
-- lowest 64 bits of both readings and the millions in `d`, also when the counter has started again from
-- 0. On i386 both print numbers of 64 bits as `long` of 32, which is undefined; there the handler of
-- rdtsc.c prints the millions in `d`. On another target the first reports 0, if `long` has 64 bits, and
-- the second has no value.
pub mains-ticks :
    {World : Type 0} (machine : Machine World) (sleep : World → World) (ticks : World → ℕ)
    (w : World) (d : ℕ) (arch : Arch)
    → IsMachine machine ticks
    → ticks (sleep w) ≡ ticks w + d
    → d < 2 ^ 63
    → Reports arch
        (
          Int64.of_bits (ticks w % 2 ^ 64),
          Int64.of_bits (ticks (sleep w) % 2 ^ 64),
          pos (d / 1000000),
        )
        (ceph_main machine sleep arch w)
        (google_main machine sleep arch w)
      × (handler_prints machine sleep w ≡ d / 1000000)
unfolding right
mains-ticks machine sleep ticks w d arch is later small = (
  mains-Reports machine sleep ticks is w d later small arch,
  handler-ticks machine sleep ticks is w d later small,
)
