-- ===== src/Postfix/Tests.antt =====
-- Runs of 224.c on inputs of its `main`, and theorems at concrete inputs.
use Prim.Native.String.{String}
use good_command.Common.{
  ℕ, ◌≡◌, refl, List, [], ◌∷◌, map, Exec, value, trap, no_fuel, ◌>>=◌, Agree, Yields, arith,
}
use good_command.Common.Int.{ℤ, pos, negsuc}
use good_command.Clib.Bytes.{codes}
use good_command.Clib.Bytes
use good_command.Clib.Int32
use good_command.Clib.Print
use good_command.Clib.Scan
use good_command.Expression.Samples.{sample, inner}
use good_command.Expression.{blanks, text, eval}
use good_command.Postfix.Order.{postfix}
use good_command.Postfix.Stack
use good_command.Postfix.Translate
use good_command.Postfix.Translate.Lists.{list_sink}
use good_command.Postfix.Translate.Simulate
use good_command.Postfix.Translate.Simulate.{mtob_within-unbounded}
use good_command.Postfix.Evaluate
use good_command.Postfix.Evaluate.Bounded.{list_numbers, cal_bstr_within-unbounded}
use good_command.Postfix.Evaluate.Bounded
use good_command.Postfix.Calculate.{no_stack, calculate, run_cases}
use good_command.Postfix.Correct.{
  Ends, mtob-postfix, cal_bstr-postfix, calculate-Ends, calculate-same,
}
use good_command.Postfix.Runs.{Case, case_text, expected, run_cases-expected}
use good_command.DoubleStack.Machine

translate : String → Exec (List ℕ)
unfolding Translate.mtob Translate.mtob_within Translate.convert Translate.convert_loop
    Translate.on_operator Translate.flush_loop Translate.reduce_loop Translate.close_loop
    Translate.push_op Translate.move_op Translate.flush_op Translate.print_number Translate.start
    Translate.result Translate.prio Translate.is_legal_op Scan.scan_int Print.print_int Bytes.strcpy
    Bytes.c_string Stack.stack_init Stack.stack_push Stack.stack_pop Stack.stack_top Stack.is_empty
translate s = Translate.mtob (codes s) no_stack >>= λ r. value r.0

translate_precedence : translate "1+2*3+(4*5+6)*7" ≡ value (codes "1 2 3 * + 4 5 * 6 + 7 * + ")
unfolding translate
translate_precedence = refl

translate_unmatched : translate "1+2)" ≡ trap
unfolding translate
translate_unmatched = refl

translate_letter : translate "1+a" ≡ no_fuel
unfolding translate
translate_letter = refl

calc : String → Exec ℤ
unfolding translate Evaluate.cal_bstr Evaluate.cal_bstr_within Evaluate.evaluate Evaluate.cal_loop
    Evaluate.apply_operator Evaluate.compute Evaluate.push_number Evaluate.pop_number Int32.add
    Int32.sub Int32.mul Int32.div calculate
calc s = calculate (codes s) no_stack >>= λ r. value r.0

calc_precedence : calc "1+2*3+(4*5+6)*7" ≡ value (pos 189)
unfolding calc
calc_precedence = refl

calc_negative : calc "3-10/3*2" ≡ value (negsuc 2)
unfolding calc
calc_negative = refl

calc_zero : calc "4/(2-2)" ≡ trap
unfolding calc
calc_zero = refl

-- A closing parenthesis behind a lone number is written as an operator, which lacks an operand.
calc_lone_close : calc "1)" ≡ trap
unfolding calc
calc_lone_close = refl

calc_empty : calc "" ≡ value (pos 0)
unfolding calc
calc_empty = refl

print_pushed :
    (Stack.stack_push 1 (codes "-12") (Stack.stack_init 2 no_stack) >>= λ st.
    value (Stack.stack_print st))
    ≡ value (codes "stack: it:0 :-12  \n")
unfolding Stack.stack_push Stack.stack_init Stack.stack_print Print.print_int
print_pushed = refl

mtob-postfix_example :
    Yields (λ r. Ends r (postfix sample [])) (Translate.mtob (text sample (blanks 2 [])) no_stack)
mtob-postfix_example = mtob-postfix sample 2 no_stack refl

mtob_within-unbounded_example :
    Agree Simulate.Leaves
      (Translate.mtob_within 9 (codes "((1+2") no_stack)
      (Translate.convert list_sink 9 (codes "((1+2") ([], []))
mtob_within-unbounded_example = mtob_within-unbounded 9 (codes "((1+2") no_stack (omega arith) refl

cal_bstr_within-unbounded_example :
    Agree Bounded.Leaves
      (Evaluate.cal_bstr_within 9 (codes "1 2 +") no_stack)
      (Evaluate.evaluate list_numbers 9 (codes "1 2 +") [])
cal_bstr_within-unbounded_example = cal_bstr_within-unbounded 9 b'1' (codes " 2 +") no_stack refl

cal_bstr-postfix_example : Agree Ends (Evaluate.cal_bstr (postfix sample []) no_stack) (eval sample)
cal_bstr-postfix_example = cal_bstr-postfix sample no_stack refl

calculate-Ends_example : Agree Ends (calculate (text sample (blanks 2 [])) no_stack) (eval sample)
calculate-Ends_example = calculate-Ends sample 2 no_stack refl

calculate-same_example :
    Agree Ends
      (calculate (text sample (blanks 2 [])) no_stack)
      (Machine.calculate (text sample (blanks 2 [])))
calculate-same_example = calculate-same sample 2 no_stack refl

abbrev two_cases : List Case
two_cases =
    record { label = codes "sb2:"; expr = sample; blanks_behind = 0 }
    ∷ record { label = codes "sb4:"; expr = inner; blanks_behind = 1 }
    ∷ []

run_cases-expected_example :
    Agree ◌≡◌ (run_cases (map case_text two_cases) no_stack) (expected two_cases)
run_cases-expected_example = run_cases-expected two_cases no_stack refl
