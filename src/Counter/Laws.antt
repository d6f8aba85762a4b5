-- ===== src/Counter/Laws.antt =====
-- The counter that is printed is not the one that AddCount changes.
use good_command.Common.{◌≡◌, refl, [], ◌∷◌, ◌++◌}
use good_command.Common.Int.{pos}
use good_command.Clib.Bytes.{codes}
use good_command.Clib.Int32
use good_command.Clib.Print.{print_int}
use good_command.Counter.{Counts, test}

-- The last number that is printed is the one in front of it, whatever is added.
test_same :
    (c : Counts)
    → (test c).0
      ≡ codes "Count init="
        ++ (print_int c.in_b
            ++ (codes ",incr= "
                ++ (print_int (Int32.add c.in_b (pos 1))
                    ++ (codes ",Added = =" ++ (print_int (Int32.add c.in_b (pos 1)) ++ 10 ∷ [])))))
unfolding test
test_same c = refl
