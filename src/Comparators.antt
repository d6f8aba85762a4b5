-- ===== src/Comparators.antt =====
-- source/src/leetcode/qsort.c: words and numbers put in order by two comparisons.
pub mod Laws
mod Tests
use good_command.Common.{ℕ, Bool, List, [], ◌∷◌, ◌++◌, ltb, if◌then◌else◌, length}
use good_command.Common.Int.{ℤ, pos, ◌-ℤ◌}
use good_command.Clib.Bytes.{codes}
use good_command.Clib.Int32
use good_command.Clib.Print.{print_int}
use good_command.Clib.Qsort.{Sorter}
use good_command.Clib.Strcmp.{strcmp}

unfoldable pub sort_function_str : List ℕ → List ℕ → ℤ
unfolding strcmp ◌-ℤ◌
sort_function_str a b = pos 0 -ℤ strcmp a b

unfoldable pub sort_function_int : ℤ → ℤ → ℤ
sort_function_int a b = Int32.sub a b

-- The two calls of `qsort`.
unfoldable pub sort_words : Sorter (List ℕ) → List (List ℕ) → List (List ℕ)
unfolding sort_function_str
sort_words qsort list = qsort sort_function_str list

unfoldable pub sort_numbers : Sorter ℤ → List ℤ → List ℤ
unfolding sort_function_int
sort_numbers qsort ar = qsort sort_function_int ar

unfoldable pub print_words : List (List ℕ) → List ℕ
print_words [] = []
print_words (word ∷ list) = word ++ 10 ∷ print_words list

-- `%2d` and a blank for each number, and an end of line.
unfoldable pub print_numbers : List ℤ → List ℕ
print_numbers [] = 10 ∷ []
print_numbers (x ∷ ar) =
    let text = print_int x in
    let padded = if ltb (length text) 2 then b' ' ∷ text else text in
    padded ++ b' ' ∷ print_numbers ar

abbrev pub words : List (List ℕ)
words = codes "cat" ∷ codes "car" ∷ codes "cab" ∷ codes "cap" ∷ codes "can" ∷ []

abbrev pub numbers : List ℤ
numbers = pos 2 ∷ pos 8 ∷ pos 50 ∷ pos 32 ∷ pos 90 ∷ pos 4 ∷ pos 66 ∷ pos 22 ∷ pos 88 ∷ pos 98 ∷ []

-- What `main` prints.
unfoldable pub main : Sorter (List ℕ) → Sorter ℤ → List ℕ
unfolding sort_words sort_numbers print_words print_numbers
main qsort_words qsort_numbers =
    print_words (sort_words qsort_words words)
    ++ (print_numbers numbers ++ print_numbers (sort_numbers qsort_numbers numbers))
