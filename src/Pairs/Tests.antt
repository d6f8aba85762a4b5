-- ===== src/Pairs/Tests.antt =====
-- The arrays of the source's `main`, with a sort by insertion for `qsort`.
use good_command.Common.{◌≡◌, refl, some, [], ◌∷◌, arith, value, Yields}
use good_command.Common.Int.{pos, ◌+ℤ◌, ◌-ℤ◌}
use good_command.Clib.Int32
use good_command.Clib.Qsort.Insertion.{insertion_sort, insertion_sort-IsQsort}
use good_command.Clib.Bytes.{codes}
use good_command.Clib.Print.{print_int}
use good_command.Pairs.Main
use good_command.Pairs.Main.{u1, u2}
use good_command.Pairs.{cmp_sum, fill_row, fill, copy_pairs, k_smallest_pairs}
use good_command.Pairs.Laws.{IsSmallest, k_smallest_pairs-IsSmallest}

run_main :
    k_smallest_pairs insertion_sort u1 u2 3
    ≡ value record {
      re = some (pos 1, pos 2) ∷ some (pos 1, pos 4) ∷ some (pos 1, pos 6) ∷ [];
      return_size = 3;
      return_column_sizes = 2 ∷ 2 ∷ 2 ∷ [];
    }
unfolding k_smallest_pairs fill fill_row copy_pairs cmp_sum Int32.add Int32.sub ◌+ℤ◌ ◌-ℤ◌
run_main = refl

k_smallest_pairs-IsSmallest_example :
    Yields (IsSmallest u1 u2 3) (k_smallest_pairs insertion_sort u1 u2 3)
k_smallest_pairs-IsSmallest_example =
    k_smallest_pairs-IsSmallest insertion_sort u1 u2 3 insertion_sort-IsQsort
      (omega arith, (omega arith, (omega arith, tt)))
      (omega arith, (omega arith, (omega arith, tt))) (omega arith)

run_prints : Main.main insertion_sort ≡ value (codes "returnSize:3\n")
unfolding Main.main k_smallest_pairs fill fill_row copy_pairs print_int
run_prints = refl
