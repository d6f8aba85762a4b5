-- ===== src/DoubleStack/Main.antt =====
-- `stack_print` and `main` of double_stack_224.c.
use good_command.Common.{ℕ, zero, suc, ◌+◌, List, [], ◌∷◌, ◌++◌, get_or, Exec, value, ◌>>=◌}
use good_command.Common.Int.{ℤ, pos, sub_ℕ}
use good_command.Clib.Bytes.{codes}
use good_command.Clib.Print.{print_int}
use good_command.DoubleStack.Stack.{Stack}
use good_command.DoubleStack.Machine.{calculate}

-- The `n` elements from `i` on, each with a blank.
unfoldable pub elements : ℕ → ℕ → List ℤ → List ℕ
elements zero i items = []
elements (suc n) i items = print_int (get_or items i (pos 0)) ++ b' ' ∷ elements n (i + 1) items

-- What is printed of a stack, with the text of its address.
unfoldable pub stack_print : List ℕ → Stack → List ℕ
unfolding elements
stack_print address stack =
    codes "stack "
    ++ (address
        ++ (codes ": it:"
            ++ (print_int (sub_ℕ stack.used 1)
                ++ (codes ": data: " ++ (elements stack.max_size 0 stack.items ++ 10 ∷ [])))))

-- The final results of the calls of `calculate`, one after the other.
unfoldable pub run_all : List (List ℕ) → Exec (List ℤ)
run_all [] = value []
run_all (s ∷ texts) = do v ← calculate s; rest ← run_all texts; value (v ∷ rest)

unfoldable pub main : Exec (List ℤ)
unfolding run_all
main = run_all (
    codes "  30"
    ∷ codes "1+2*3+(4*5+6)*7"
    ∷ codes "(1+(4+5+2)-3)+(6+8)"
    ∷ codes " 2-1 + 2 "
    ∷ codes "0"
    ∷ [])
