-- ===== src/Clock/Laws.antt =====
-- What clock_gettime.c prints, for a clock that keeps time.
use good_command.Common.{
  option-cases, ℕ, zero, suc, ◌+◌, ◌*◌, ◌^◌, ◌<◌, ◌≤◌, ◌≡◌, refl, ◌⊎◌, inl, inr, length, Option,
  some, List, [], ◌∷◌, arith,
}
use good_command.Common.Int.{ℤ, pos, negsuc, pos_part, ◌≤ℤ◌}
use good_command.Sorted.{All}
use good_command.Clock
use good_command.Clock.{Timespec, time_pass, Exit, success, failure, End, measure_loop}
use good_command.Clock.Exact.{Reads, end_of_time, Near, time_pass-Near}

-- The milliseconds that are printed, all together.
unfoldable pub total : List ℤ → ℕ
total [] = 0
total (v ∷ vs) = pos_part v + total vs

-- How `rounds` rounds from the time `start` on end: each has printed, or one that failed was the last.
pub record Measures {World : Type 0} (now : World → ℕ) (rounds start : ℕ) (e : End World)
    : Type 0 where
  pub ends :
      ((e.exit ≡ success) × (length e.printed ≡ rounds))
      ⊎ ((e.exit ≡ failure) × (length e.printed < rounds))
  pub a_second : All (λ v. pos 1000 ≤ℤ v) e.printed
  pub no_more : total e.printed * 10 ^ 6 + start ≤ now e.system + rounds * 10 ^ 6

-- When a second or more has passed.
second_or_more :
    (before after : ℕ) (v : ℤ)
    → before + 10 ^ 9 ≤ after
    → Near before after v
    → (pos 1000 ≤ℤ v) × (pos_part v * 10 ^ 6 + before < after + 10 ^ 6)
second_or_more before after (pos n) h near = omega arith
second_or_more before after (negsuc n) h near = absurd (omega arith)

one_more :
    (rounds : ℕ) (exit : Exit) (n : ℕ)
    → ((exit ≡ success) × (n ≡ rounds)) ⊎ ((exit ≡ failure) × (n < rounds))
    → ((exit ≡ success) × (suc n ≡ suc rounds)) ⊎ ((exit ≡ failure) × (suc n < suc rounds))
one_more rounds exit n (inl (e, same)) = inl (e, omega arith)
one_more rounds exit n (inr (e, fewer)) = inr (e, omega arith)

module _ {World : Type 0} (clock_gettime : World → Option Timespec × World) (sleep : World → World)
    (now : World → ℕ) where
  -- A reading is a time between its beginning and its end, and a sleep takes a second or more.
  pub record IsClock : Type 0 where
    pub reads :
        (w : World) (t : Timespec)
        → (clock_gettime w).0 ≡ some t
        → (time : ℕ) × Reads t time × (now w ≤ time) × (time ≤ now (clock_gettime w).1)
    pub runs : (w : World) → now w ≤ now (clock_gettime w).1
    pub rests : (w : World) → now w + 10 ^ 9 ≤ now (sleep w)

  module _ (clock : IsClock) where
    open clock use {reads, runs, rests}

    loop_later :
        (rounds : ℕ) (w : World) → now w ≤ now (measure_loop clock_gettime sleep rounds w).system
    unfolding measure_loop
    loop_later zero w = omega arith
    loop_later (suc rounds) w =
        let w₁ = (clock_gettime w).1 in
        let w₂ = (clock_gettime (sleep w₁)).1 in
        let a = runs w in
        let b = rests w₁ in
        let c = runs (sleep w₁) in
        let d = loop_later rounds w₂ in
        elim (option-cases (clock_gettime w).0) [
          | inl none₁ ↦ rw none₁ (runs w)
          | inr (t1, some₁) ↦ elim (option-cases (clock_gettime (sleep w₁)).0) [
            | inl none₂ ↦ rw (some₁, none₂) (omega arith)
            | inr (t2, some₂) ↦ rw (some₁, some₂) (omega arith)
          ]
        ]

    loop-Measures :
        (rounds : ℕ) (w : World)
        → now (measure_loop clock_gettime sleep rounds w).system < end_of_time
        → Measures now rounds (now w) (measure_loop clock_gettime sleep rounds w)
    unfolding measure_loop total
    loop-Measures zero w h = record {
      ends = inl (refl, refl);
      a_second = tt;
      no_more = omega arith;
    }
    loop-Measures (suc rounds) w h =
        let w₁ = (clock_gettime w).1 in
        let w₂ = (clock_gettime (sleep w₁)).1 in
        let a = runs w in
        let b = rests w₁ in
        let c = runs (sleep w₁) in
        let d = loop_later rounds w₂ in
        elim (option-cases (clock_gettime w).0) [
          | inl none₁ ↦
              rw none₁
                record { ends = inr (refl, omega arith); a_second = tt; no_more = omega arith }
          | inr (t1, some₁) ↦ elim (option-cases (clock_gettime (sleep w₁)).0) [
            | inl none₂ ↦
                rw (some₁, none₂)
                  record { ends = inr (refl, omega arith); a_second = tt; no_more = omega arith }
            | inr (t2, some₂) ↦
                let late : now (measure_loop clock_gettime sleep rounds w₂).system < end_of_time =
                  rw (some₁, some₂) at h in
                let (before, r, low, high) = reads w t1 some₁ in
                let (after, r', low', high') = reads (sleep w₁) t2 some₂ in
                let near = time_pass-Near t1 t2 before after r r' (omega arith) (omega arith) in
                let (long, short) = second_or_more before after _ (omega arith) near in
                let m = loop-Measures rounds w₂ late in
                rw (some₁, some₂)
                  record {
                    ends = one_more rounds _ _ m.ends;
                    a_second = (long, m.a_second);
                    no_more = omega (arith, m.no_more);
                  }
          ]
        ]

-- For a clock that goes forward, whose readings are times between the beginning and the end of a
-- call, and a sleep of a second or more, in the first 2 ^ 40 seconds: `main` prints five numbers and
-- returns, or fewer and exits by the failure of a reading. None is below 1000, and all together they
-- are at most five milliseconds above the time that has passed.
pub main-Measures :
    {World : Type 0} (clock_gettime : World → Option Timespec × World) (sleep : World → World)
    (now : World → ℕ) (w : World)
    → IsClock clock_gettime sleep now
    → now (Clock.main clock_gettime sleep w).system < end_of_time
    → Measures now 5 (now w) (Clock.main clock_gettime sleep w)
unfolding Clock.main
main-Measures clock_gettime sleep now w clock h = loop-Measures clock_gettime sleep now clock 5 w h
