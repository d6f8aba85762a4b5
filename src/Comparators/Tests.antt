-- ===== src/Comparators/Tests.antt =====
-- qsort.c with a sort by insertion for `qsort`.
use mathlib.Core.List.{Perm}
use good_command.Common.{◌≡◌, refl, arith}
use good_command.Clib.Bytes.{codes}
use good_command.Clib.Int32
use good_command.Clib.Print
use good_command.Clib.Strcmp
use good_command.Clib.Qsort.{SortedBy}
use good_command.Clib.Qsort.Difference.{Le}
use good_command.Clib.Qsort.Insertion.{insertion_sort, insertion_sort-IsQsort}
use good_command.Comparators
use good_command.Comparators.{words, numbers, sort_words, sort_numbers}
use good_command.Comparators.Laws.{LexGe, sorts-SortedBy}

main_prints :
    Comparators.main insertion_sort insertion_sort
    ≡ codes
        "cat\ncar\ncap\ncan\ncab\n 2  8 50 32 90  4 66 22 88 98 \n 2  4  8 22 32 50 66 88 90 98 \n"
unfolding Comparators.main Comparators.sort_function_int Int32.sub Print.print_int Strcmp.strcmp
main_prints = refl

sorts-SortedBy_example :
    (SortedBy LexGe (sort_words insertion_sort words)
      × Perm (sort_words insertion_sort words) words)
    × (SortedBy Le (sort_numbers insertion_sort numbers)
        × Perm (sort_numbers insertion_sort numbers) numbers)
sorts-SortedBy_example =
    sorts-SortedBy insertion_sort insertion_sort words numbers insertion_sort-IsQsort
      insertion_sort-IsQsort (grind arith) (omega arith)
