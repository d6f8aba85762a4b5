-- ===== src/Frequency/Tests.antt =====
-- The text "tree" of the source's `main`, with a sort by insertion for `qsort`.
use good_command.Common.{ℕ, ◌≡◌, refl, List, [], ◌∷◌, arith, value, trap, Yields}
use good_command.Common.Int.{◌+ℤ◌, ◌-ℤ◌}
use good_command.Clib.Int32
use good_command.Clib.Qsort.Insertion.{insertion_sort, insertion_sort-IsQsort}
use good_command.Clib.Bytes.{codes}
use good_command.Clib.Print.{print_int}
use good_command.Frequency.Main
use good_command.Frequency.{compare, count_loop, copies, emit_loop, frequency_sort}
use good_command.Frequency.Sorted.{IsByFrequency, frequency_sort-IsByFrequency}

abbrev tree : List ℕ
tree = b't' ∷ b'r' ∷ b'e' ∷ b'e' ∷ []

run_tree : frequency_sort insertion_sort tree ≡ value (b'e' ∷ b'e' ∷ b'r' ∷ b't' ∷ [])
unfolding frequency_sort count_loop emit_loop copies compare Int32.add Int32.sub ◌+ℤ◌ ◌-ℤ◌
run_tree = refl

-- A byte for which the pool has no place.
run_delete : frequency_sort insertion_sort (127 ∷ []) ≡ trap
unfolding frequency_sort count_loop
run_delete = refl

frequency_sort-IsByFrequency_example :
    Yields (IsByFrequency tree) (frequency_sort insertion_sort tree)
frequency_sort-IsByFrequency_example =
    frequency_sort-IsByFrequency insertion_sort tree insertion_sort-IsQsort
      (
        omega arith,
        omega arith,
        (omega arith, omega arith, (omega arith, omega arith, (omega arith, omega arith, tt))),
      )
      (omega arith)

run_main :
    Main.main insertion_sort
    ≡ value (
        codes
          "i:0 line 46\ne\nee\ni:0 line 54\ni:1 line 46\neer\ni:1 line 54\ni:2 line 46\neert\ni:2 line 54\neert\n")
unfolding Main.main frequency_sort count_loop emit_loop copies compare Int32.add Int32.sub ◌+ℤ◌ ◌-ℤ◌
    print_int
run_main = refl
