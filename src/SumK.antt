-- ===== src/SumK.antt =====
-- source/src/trust/src/sumk.c: how many pairs of an array have a sum of at most k. The file has a stray
-- `if` at the end of the loop, which is left out.
pub mod Pairs
pub mod Window
pub mod Laws
mod Tests
use good_command.Common.{
  ℕ, zero, suc, ◌+◌, ◌-◌, ◌%◌, ◌^◌, Bool, List, ltb, if◌then◌else◌, length, get_or, Exec, value,
  trap, no_fuel,
}
use good_command.Common.Int.{ℤ, pos, ltb_ℤ}
use good_command.Clib.Int32
use good_command.Clib.Qsort.{Sorter}

unfoldable pub compare : ℤ → ℤ → ℤ
compare a b = Int32.sub a b

-- The loop, for an `unsigned long long` count.
unfoldable pub count_loop : ℕ → List ℤ → ℤ → (i j count : ℕ) → Exec ℕ
count_loop zero a k i j count = no_fuel
count_loop (suc rounds) a k i j count =
    let down = count_loop rounds a k i (j - 1) count in
    let up = count_loop rounds a k (i + 1) j ((count + (j - i)) % 2 ^ 64) in
    if ltb i j
    then if ltb_ℤ k (Int32.add (get_or a i (pos 0)) (get_or a j (pos 0))) then down else up
    else value count

abbrev maxn : ℕ
maxn = 200001

-- For the numbers that are read into the array of `maxn`; one more is written past it. A round of the loop
-- brings the indices nearer by one.
unfoldable pub count_pairs : Sorter ℤ → List ℤ → ℤ → Exec ℕ
unfolding compare count_loop
count_pairs qsort numbers k =
    let a = qsort compare numbers in
    let count = count_loop (length numbers + 1) a k 0 (length numbers - 1) 0 in
    if ltb maxn (length numbers) then trap else count
