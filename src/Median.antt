-- ===== src/Median.antt =====
-- source/src/leetcode/median-of-two-sorted-arrays.c: the median of two sorted arrays by a merge.
pub mod Laws
pub mod Main
mod Tests
use good_command.Common.{
  ℕ, zero, suc, ◌+◌, ◌-◌, ◌/◌, ◌%◌, Bool, true, false, List, [], ◌∷◌, ◌==◌, if◌then◌else◌, length,
  get_elem?, match_option, Exec, value, trap, no_fuel, ◌>>=◌,
}
use good_command.Common.Int.{ℤ, ◌+ℤ◌, leb_ℤ}
use good_command.Clib.Int32

-- An element of an array; a read outside it traps.
unfoldable pub read : List ℤ → ℕ → Exec ℤ
read xs i = match_option (get_elem? xs i) trap value

-- The loop that fills `c`, from an index on; `rounds` elements are to come.
unfoldable pub merge_loop : (nums1 nums2 : List ℤ) → (rounds j1 j2 : ℕ) → Exec (List ℤ)
unfolding read
merge_loop nums1 nums2 zero j1 j2 = value []
merge_loop nums1 nums2 (suc rounds) j1 j2 =
    let from1 =
      read nums1 j1 >>= λ a. merge_loop nums1 nums2 rounds (suc j1) j2 >>= λ c. value (a ∷ c) in
    let from2 =
      read nums2 j2 >>= λ b. merge_loop nums1 nums2 rounds j1 (suc j2) >>= λ c. value (b ∷ c) in
    if j1 == length nums1
    then from2
    else if j2 == length nums2
    then from1
    else (read nums1 j1 >>= λ a. read nums2 j2 >>= λ b. if leb_ℤ a b then from1 else from2)

-- A `double` that is half of an integer.
pub record Double : Type 0 where
  pub halves : ℤ

-- `malloc` is taken to succeed. The sum is an `int`; an `int` is exact as a `double`.
unfoldable pub find_median_sorted_arrays : (nums1 nums2 : List ℤ) → Exec Double
find_median_sorted_arrays nums1 nums2 =
    let s = length nums1 + length nums2 in
    merge_loop nums1 nums2 s 0 0 >>= λ c.
    if s % 2 == 0
    then (read c (s / 2) >>= λ a.
        read c (s / 2 - 1) >>= λ b. value (record { halves = Int32.add a b }))
    else (read c (s / 2) >>= λ a. value (record { halves = a +ℤ a }))
