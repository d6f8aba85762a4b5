-- ===== src/Median/Main.antt =====
-- What median-of-two-sorted-arrays.c prints.
use good_command.Common.{
  ℕ, zero, suc, ◌+◌, ◌/◌, ◌%◌, List, [], ◌∷◌, ◌++◌, ◌==◌, if◌then◌else◌, length, Exec, value, ◌>>=◌,
}
use good_command.Common.Int.{ℤ, pos, negsuc}
use good_command.Clib.Bytes.{codes}
use good_command.Clib.Print.{print_int}
use good_command.Median.{Double, merge_loop, find_median_sorted_arrays}

unfoldable pub print_all : List ℤ → List ℕ
print_all [] = 10 ∷ []
print_all (v ∷ vs) = print_int v ++ b' ' ∷ print_all vs

unfoldable pub indexes : ℕ → ℕ → List ℤ
indexes i zero = []
indexes i (suc n) = pos i ∷ indexes (i + 1) n

-- `%lf` of `h` halves
unfoldable pub print_halves : ℕ → List ℕ
print_halves h =
    print_int (pos (h / 2)) ++ (if h % 2 == 0 then codes ".000000" else codes ".500000")

unfoldable pub print_double : Double → List ℕ
unfolding print_halves
print_double d = elim d.halves [ pos h ↦ print_halves h | negsuc h ↦ b'-' ∷ print_halves (h + 1) ]

-- The indexes, the merged array and the median.
unfoldable pub run_case : List ℤ × List ℤ → Exec (List ℕ)
unfolding print_all indexes print_double
run_case (a, b) = do
  c ← merge_loop a b (length a + length b) 0 0
  median ← find_median_sorted_arrays a b
  value (
      print_all (indexes 0 (length c))
      ++ (print_all c ++ (codes "median:" ++ (print_double median ++ 10 ∷ []))))

unfoldable pub run_cases : List (List ℤ × List ℤ) → Exec (List ℕ)
unfolding run_case
run_cases [] = value []
run_cases (ab ∷ cases) = do text ← run_case ab; rest ← run_cases cases; value (text ++ rest)

abbrev pub arrays : List (List ℤ × List ℤ)
arrays =
    (pos 1 ∷ pos 3 ∷ [], pos 2 ∷ [])
    ∷ (pos 1 ∷ pos 2 ∷ [], pos 3 ∷ pos 4 ∷ [])
    ∷ (pos 1 ∷ pos 2 ∷ pos 3 ∷ pos 4 ∷ pos 5 ∷ [], pos 6 ∷ pos 7 ∷ pos 8 ∷ pos 9 ∷ pos 10 ∷ [])
    ∷ (pos 2 ∷ pos 2 ∷ pos 2 ∷ pos 3 ∷ pos 3 ∷ pos 10 ∷ [], pos 1 ∷ pos 2 ∷ pos 6 ∷ pos 9 ∷ [])
    ∷ []

unfoldable pub main : Exec (List ℕ)
unfolding run_cases
main = run_cases arrays
