-- ===== src/Postfix/Calculate.antt =====
-- `calculate` of 224.c, and the runs of its `main`.
use good_command.Common.{ℕ, List, [], ◌∷◌, ◌++◌, Exec, value, ◌>>=◌}
use good_command.Common.Int.{ℤ}
use good_command.Clib.Bytes.{codes}
use good_command.Clib.Print.{print_int}
use good_command.Postfix.Stack.{Stack}
use good_command.Postfix.Translate.{mtob}
use good_command.Postfix.Evaluate.{cal_bstr}
use good_command.Postfix.Sample.{s6}

-- With the stack that the global variables keep.
unfoldable pub calculate : List ℕ → Stack → Exec (ℤ × Stack)
calculate s st = mtob s st >>= λ r. cal_bstr r.0 r.1

-- What `mtob` prints: an end of line, but for the empty text.
unfoldable pub mtob_prints : List ℕ → List ℕ
mtob_prints [] = []
mtob_prints (c ∷ s) = 10 ∷ []

-- The lines of `main` for one text, by the label of the first and the two results.
unfoldable pub lines : List ℕ → List ℕ → ℤ → List ℕ
lines label sb v = label ++ (sb ++ (codes "\ncal:" ++ (print_int v ++ 10 ∷ [])))

-- One text of `main` after the other, each with its label: what is printed.
unfoldable pub run_cases : List (List ℕ × List ℕ) → Stack → Exec (List ℕ)
run_cases [] st = value []
run_cases ((label, s) ∷ cases) st = do
  sb ← mtob s st
  r ← cal_bstr sb.0 sb.1
  rest ← run_cases cases r.1
  value (mtob_prints s ++ (lines label sb.0 r.0 ++ rest))

-- The global variables at the start.
abbrev pub no_stack : Stack
no_stack = record { nodes = []; used = 0; stack_len = 0 }

-- What `main` prints.
unfoldable pub main : Exec (List ℕ)
unfolding run_cases
main =
    run_cases
      ((codes "sb2:", codes "  30")
        ∷ (codes "sb2:", codes "1+2*3+(4*5+6)*7")
        ∷ (codes "sb3:", codes "(1+(4+5+2)-3)+(6+8)")
        ∷ (codes "sb4:", codes " 2-1 + 2 ")
        ∷ (codes "sb6:", s6)
        ∷ (codes "sb4:", codes "0")
        ∷ [])
      no_stack
