-- ===== src/Median/Tests.antt =====
-- Runs of median-of-two-sorted-arrays.c on arrays of the source's `main`.
use good_command.Common.{◌++◌, ◌≡◌, refl, List, [], ◌∷◌, arith, value, trap, Yields}
use good_command.Common.Int.{ℤ, pos, ◌+ℤ◌}
use good_command.Clib.Int32
use good_command.Clib.Bytes.{codes}
use good_command.Clib.Print.{print_int}
use good_command.Median.Main
use good_command.Median.{read, merge_loop, find_median_sorted_arrays}
use good_command.Median.Laws.{IsMedian, find_median_sorted_arrays-IsMedian}

abbrev a1 : List ℤ
a1 = pos 1 ∷ pos 3 ∷ []

abbrev b1 : List ℤ
b1 = pos 2 ∷ []

abbrev a4 : List ℤ
a4 = pos 2 ∷ pos 2 ∷ pos 2 ∷ pos 3 ∷ pos 3 ∷ pos 10 ∷ []

abbrev b4 : List ℤ
b4 = pos 1 ∷ pos 2 ∷ pos 6 ∷ pos 9 ∷ []

median_odd : find_median_sorted_arrays a1 b1 ≡ value (record { halves = pos 4 })
unfolding find_median_sorted_arrays merge_loop read Int32.add ◌+ℤ◌
median_odd = refl

median_even : find_median_sorted_arrays a4 b4 ≡ value (record { halves = pos 5 })
unfolding find_median_sorted_arrays merge_loop read Int32.add ◌+ℤ◌
median_even = refl

-- Without elements `c [0]` is outside the array.
median_none : find_median_sorted_arrays [] [] ≡ trap
unfolding find_median_sorted_arrays merge_loop read
median_none = refl

find_median_sorted_arrays-IsMedian_example :
    Yields (IsMedian (a1 ++ b1)) (find_median_sorted_arrays a1 b1)
find_median_sorted_arrays-IsMedian_example =
    find_median_sorted_arrays-IsMedian a1 b1 (omega arith, (tt, tt)) (tt, tt)
      (omega arith, (omega arith, tt)) (omega arith, tt) (omega arith)

run_main : Main.run_case (a1, b1) ≡ value (codes "0 1 2 \n1 2 3 \nmedian:2.000000\n")
unfolding Main.run_case find_median_sorted_arrays merge_loop read Int32.add ◌+ℤ◌ print_int
run_main = refl
