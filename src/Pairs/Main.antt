-- ===== src/Pairs/Main.antt =====
-- `main` of kSmallestPairs.c.
use good_command.Common.{ℕ, List, [], ◌∷◌, ◌++◌, Exec, value, ◌>>=◌}
use good_command.Common.Int.{ℤ, pos}
use good_command.Clib.Bytes.{codes}
use good_command.Clib.Print.{print_int}
use good_command.Clib.Qsort.{Sorter}
use good_command.Pairs.{SumAll, k_smallest_pairs}

abbrev pub u1 : List ℤ
u1 = pos 1 ∷ pos 7 ∷ pos 11 ∷ []

abbrev pub u2 : List ℤ
u2 = pos 2 ∷ pos 4 ∷ pos 6 ∷ []

-- What is printed; the results are freed.
unfoldable pub main : Sorter SumAll → Exec (List ℕ)
main qsort = k_smallest_pairs qsort u1 u2 3 >>= λ r.
    value (codes "returnSize:" ++ (print_int (pos r.return_size) ++ 10 ∷ []))
