-- ===== src/SumK/Tests.antt =====
-- Small arrays, with a sort by insertion for `qsort`.
use good_command.Common.{◌≡◌, ◌%◌, ◌^◌, refl, List, [], ◌∷◌, arith, value}
use good_command.Common.Int.{ℤ, pos, negsuc}
use good_command.Clib.Int32
use good_command.Clib.Qsort.Insertion.{insertion_sort, insertion_sort-IsQsort}
use good_command.SumK.{compare, count_loop, count_pairs}
use good_command.SumK.Pairs.{pairs}
use good_command.SumK.Laws.{count_pairs-pairs}

abbrev numbers : List ℤ
numbers = pos 4 ∷ pos 1 ∷ negsuc 1 ∷ pos 3 ∷ []

run_four : count_pairs insertion_sort numbers (pos 4) ≡ value 4
unfolding count_pairs count_loop compare Int32.sub Int32.add
run_four = refl

run_none : count_pairs insertion_sort [] (pos 4) ≡ value 0
unfolding count_pairs count_loop
run_none = refl

count_pairs-pairs_example :
    count_pairs insertion_sort numbers (pos 4) ≡ value (◌%◌ (pairs (pos 4) numbers) (◌^◌ 2 64))
count_pairs-pairs_example =
    count_pairs-pairs insertion_sort numbers (pos 4) insertion_sort-IsQsort
      (omega arith, (omega arith, (omega arith, (omega arith, tt))))
