-- ===== src/Clock/Exact.antt =====
-- How near the milliseconds of clock_gettime.c are to the time between two readings.
use good_command.Common.{ℕ, ◌+◌, ◌*◌, ◌^◌, ◌<◌, ◌≤◌, ◌≡◌, arith}
use good_command.Common.Int.{
  ℤ, pos, negsuc, ◌+ℤ◌, ◌-ℤ◌, ◌*ℤ◌, pos_part, neg_part, int_laws, +ℤ_parts_le, -ℤ_parts_le,
}
use good_command.Clib.Int64
use good_command.Clib.Int64.{IsLong, parts-IsLong, to_long, to_long-eq_self}
use good_command.Clock.{Timespec, time_pass}

-- The reading that stands for `time` nanoseconds since 1970.
pub record Reads (t : Timespec) (time : ℕ) : Type 0 where
  pub n : ℕ
  pub m : ℕ
  pub seconds : t.tv_sec ≡ pos n
  pub nanoseconds : t.tv_nsec ≡ pos m
  pub within : m < 10 ^ 9
  pub same : n * 10 ^ 9 + m ≡ time

-- For some 30000 years.
abbrev pub end_of_time : ℕ
end_of_time = 2 ^ 40 * 10 ^ 9

-- The milliseconds `v` are off by less than one from the nanoseconds between two times.
abbrev pub Near : ℕ → ℕ → ℤ → Type 0
Near before after v =
    (pos_part v * 10 ^ 6 + before < after + neg_part v * 10 ^ 6 + 10 ^ 6)
    × (after + neg_part v * 10 ^ 6 < pos_part v * 10 ^ 6 + before + 10 ^ 6)

mul_thousand_parts_le :
    (a : ℤ)
    → (pos_part (a *ℤ pos 1000) ≤ pos_part a * 1000)
      × (neg_part (a *ℤ pos 1000) ≤ neg_part a * 1000)
unfolding ◌*ℤ◌
mul_thousand_parts_le a = ground arith

quot_parts_le :
    (a : ℤ)
    → (pos_part (Int64.quot a 1000000) ≤ pos_part a)
      × (neg_part (Int64.quot a 1000000) ≤ neg_part a)
unfolding Int64.quot ◌-ℤ◌
quot_parts_le (pos n) = ground arith
quot_parts_le (negsuc n) = ground arith

mul_thousand_parts :
    (a : ℤ)
    → pos_part (a *ℤ pos 1000) + neg_part a * 1000 ≡ neg_part (a *ℤ pos 1000) + pos_part a * 1000
unfolding ◌*ℤ◌
mul_thousand_parts a = ground arith

-- A quotient is off by less than one, on the side of 0.
quot-near :
    (a : ℤ)
    → (pos_part (Int64.quot a 1000000) * 10 ^ 6 + neg_part a
        < pos_part a + neg_part (Int64.quot a 1000000) * 10 ^ 6 + 10 ^ 6)
      × (pos_part a + neg_part (Int64.quot a 1000000) * 10 ^ 6
          < pos_part (Int64.quot a 1000000) * 10 ^ 6 + neg_part a + 10 ^ 6)
unfolding Int64.quot ◌-ℤ◌
quot-near (pos n) = ground arith
quot-near (negsuc n) = ground arith

module _ (n m n' m' : ℕ) where
  seconds : ℤ
  seconds = pos n' -ℤ pos n

  nanoseconds : ℤ
  nanoseconds = pos m' -ℤ pos m

  milliseconds : ℤ
  milliseconds = seconds *ℤ pos 1000 +ℤ Int64.quot nanoseconds 1000000

  module _ (sn : n < 2 ^ 40) (sn' : n' < 2 ^ 40) (sm : m < 10 ^ 9) (sm' : m' < 10 ^ 9) where
    seconds-IsLong : IsLong seconds
    unfolding seconds
    seconds-IsLong =
        let (p, q) = -ℤ_parts_le (pos n') (pos n) in parts-IsLong _ (omega arith) (omega arith)

    nanoseconds-IsLong : IsLong nanoseconds
    unfolding nanoseconds
    nanoseconds-IsLong =
        let (p, q) = -ℤ_parts_le (pos m') (pos m) in parts-IsLong _ (omega arith) (omega arith)

    thousand-IsLong : IsLong (seconds *ℤ pos 1000)
    unfolding seconds
    thousand-IsLong =
        let (p, q) = -ℤ_parts_le (pos n') (pos n) in
        let (p', q') = mul_thousand_parts_le seconds in parts-IsLong _ (omega arith) (omega arith)

    milliseconds-IsLong : IsLong milliseconds
    unfolding milliseconds seconds nanoseconds
    milliseconds-IsLong =
        let (p, q) = -ℤ_parts_le (pos n') (pos n) in
        let (p', q') = mul_thousand_parts_le seconds in
        let (u, v) = -ℤ_parts_le (pos m') (pos m) in
        let (u', v') = quot_parts_le nanoseconds in
        let (x, y) = +ℤ_parts_le (seconds *ℤ pos 1000) (Int64.quot nanoseconds 1000000) in
        parts-IsLong _ (omega arith) (omega arith)

    -- Nothing overflows.
    exact :
        (t1 t2 : Timespec)
        → (t1.tv_sec ≡ pos n) × (t1.tv_nsec ≡ pos m)
        → (t2.tv_sec ≡ pos n') × (t2.tv_nsec ≡ pos m')
        → time_pass t1 t2 ≡ milliseconds
    unfolding time_pass Int64.add Int64.sub Int64.mul milliseconds seconds nanoseconds
    exact t1 t2 (s, ns) (s', ns') =
        rw (s, ns, s', ns')
          (rw
            (to_long-eq_self seconds seconds-IsLong, to_long-eq_self nanoseconds nanoseconds-IsLong)
            (rw (to_long-eq_self (seconds *ℤ pos 1000) thousand-IsLong)
              (to_long-eq_self milliseconds milliseconds-IsLong)))

    milliseconds-Near : Near (n * 10 ^ 9 + m) (n' * 10 ^ 9 + m') milliseconds
    unfolding milliseconds seconds nanoseconds
    milliseconds-Near =
        let (low, high) = quot-near nanoseconds in
        let product = mul_thousand_parts seconds in (omega int_laws, omega int_laws)

pub time_pass-Near :
    (t1 t2 : Timespec) (before after : ℕ)
    → Reads t1 before
    → Reads t2 after
    → before < end_of_time
    → after < end_of_time
    → Near before after (time_pass t1 t2)
time_pass-Near t1 t2 before after r r' early early' =
    let p : r.n < 2 ^ 40 = omega (arith, r.same) in
    let p' : r'.n < 2 ^ 40 = omega (arith, r'.same) in
    let e =
      exact r.n r.m r'.n r'.m p p' r.within r'.within t1 t2 (r.seconds, r.nanoseconds)
        (r'.seconds, r'.nanoseconds) in
    rw (e, ← r.same, ← r'.same) (milliseconds-Near r.n r.m r'.n r'.m p p' r.within r'.within)
