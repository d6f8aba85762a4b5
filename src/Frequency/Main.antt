-- ===== src/Frequency/Main.antt =====
-- What 451-sort-frequency.c prints.
use good_command.Common.{
  ℕ, ◌+◌, List, [], ◌∷◌, ◌++◌, ◌==◌, if◌then◌else◌, replicate, Exec, value, ◌>>=◌,
}
use good_command.Common.Int.{pos}
use good_command.Clib.Bytes.{codes}
use good_command.Clib.Print.{print_int}
use good_command.Clib.Qsort.{Sorter}
use good_command.Frequency.{Elemnt, char_max, cleared, compare, count_loop, copies, frequency_sort}

-- `i:%d line %d`, with the line of the source.
unfoldable pub at_line : ℕ → ℕ → List ℕ
at_line i line =
    codes "i:" ++ (print_int (pos i) ++ (codes " line " ++ (print_int (pos line) ++ 10 ∷ [])))

-- The result so far, with one byte of `more` after the other.
unfoldable pub print_copies : List ℕ → List ℕ → List ℕ
print_copies ret [] = []
print_copies ret (c ∷ more) = let ret' = ret ++ c ∷ [] in ret' ++ 10 ∷ print_copies ret' more

-- The loop over the sorted pool from the place `i` on.
unfoldable pub print_loop : ℕ → List ℕ → List Elemnt → Exec (List ℕ)
unfolding at_line print_copies copies
print_loop i ret [] = value []
print_loop i ret (x ∷ pool) =
    let lines = copies x >>= λ t. print_loop (i + 1) (ret ++ t) pool >>= λ rest.
    value (at_line i 46 ++ (print_copies ret t ++ (at_line i 54 ++ rest))) in
    if x.e == 0 then value [] else lines

unfoldable pub frequency_sort_prints : Sorter Elemnt → List ℕ → Exec (List ℕ)
unfolding print_loop
frequency_sort_prints qsort s = do
  pool ← count_loop s (replicate char_max cleared)
  print_loop 0 [] (qsort compare pool)

unfoldable pub main : Sorter Elemnt → Exec (List ℕ)
unfolding frequency_sort_prints
main qsort = do
  text ← frequency_sort_prints qsort (codes "tree")
  r ← frequency_sort qsort (codes "tree")
  value (text ++ (r ++ 10 ∷ []))
