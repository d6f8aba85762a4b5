-- ===== src/DoubleStack/Tests.antt =====
-- Runs of the calculator on inputs of the source's `main`.
use Prim.Native.String.{String}
use good_command.Common.{
  ◌+◌, ◌≡◌, ◌≢◌, refl, false, [], ◌∷◌, arith, ◌==◌, value, trap, no_fuel, Exec, ◌>>=◌,
}
use good_command.Common.Int.{ℤ, pos, negsuc}
use good_command.Clib.Int32
use good_command.Clib.Bytes.{codes}
use good_command.Clib.Print.{print_int}
use good_command.Clib.Scan
use good_command.DoubleStack.Stack
use good_command.DoubleStack.Stack.Refine.{Holds, list_stack, operations-refine}
use good_command.DoubleStack.Machine
use good_command.DoubleStack.Main.{stack_print}
use good_command.DoubleStack.Main
use good_command.DoubleStack.Machine.Simulate.{calculate_within-unbounded}
use good_command.DoubleStack.Correct.{calculate-eval}
use good_command.DoubleStack.Hang.{IsStuck}
use good_command.DoubleStack.Malformed.{
  calculate_within-stuck, calculate_within-unmatched, calculate-factor_close,
}
use good_command.Expression.Samples.{twelve, sample}
use good_command.Expression.{
  number, blanks, text, text_factor, eval, eval_factor, apply_add, apply_mul,
}

calc : String → Exec ℤ
unfolding Machine.calculate Machine.calculate_within Machine.run Machine.finish Machine.calc_loop
    Machine.on_operator Machine.flush_loop Machine.reduce_loop Machine.close_loop
    Machine.pop_and_cal Machine.do_one_cal Machine.prio Machine.is_legal_op Scan.scan_int Int32.add
    Int32.sub Int32.mul Int32.div Stack.stack_init Stack.stack_push Stack.stack_pop Stack.stack_top
calc s = Machine.calculate (codes s)

calc_precedence : calc "1+2*3+(4*5+6)*7" ≡ value (pos 189)
unfolding calc
calc_precedence = refl

calc_nested : calc "(1+(4+5+2)-3)+(6+8)" ≡ value (pos 23)
unfolding calc
calc_nested = refl

calc_blanks : calc " 2-1 + 2 " ≡ value (pos 3)
unfolding calc
calc_blanks = refl

calc_negative : calc "3-10/3*2" ≡ value (negsuc 2)
unfolding calc
calc_negative = refl

calc_zero : calc "4/(2-2)" ≡ trap
unfolding calc
calc_zero = refl

calc_letter : calc "1+a" ≡ no_fuel
unfolding calc
calc_letter = refl

calc_close : calc "1+2)" ≡ no_fuel
unfolding calc
calc_close = refl

sample-text : text sample [] ≡ codes " 12-3*( 4+5)/02"
unfolding text
sample-text = refl

sample_value : eval sample ≡ value (negsuc 0)
unfolding eval apply_add apply_mul Int32.add Int32.sub Int32.mul Int32.div
sample_value = refl

calculate-eval_example : Machine.calculate (text sample (blanks 2 [])) ≡ eval sample
calculate-eval_example = calculate-eval sample 2

calculate_within-unbounded_example :
    Machine.calculate_within 9 (codes "1+2)") ≡ Machine.run list_stack 9 (codes "1+2)") ([], [])
calculate_within-unbounded_example = calculate_within-unbounded 9 (codes "1+2)")

letter_IsStuck : IsStuck b'a' (codes "bc")
unfolding Machine.is_legal_op Scan.scan_int
letter_IsStuck = record { no_op = refl; no_blank = refl; no_number = refl }

calculate_within-stuck_example :
    Machine.calculate_within (7 + 3) (text sample (blanks 1 (b'a' ∷ codes "bc"))) ≢ value (pos 5)
unfolding Scan.is_digit
calculate_within-stuck_example =
    calculate_within-stuck 7 sample 1 b'a' (codes "bc") (pos 5) refl letter_IsStuck

calculate_within-unmatched_example :
    Machine.calculate_within (7 + 3) (text sample (blanks 1 (b')' ∷ codes "+1"))) ≢ value (pos 5)
calculate_within-unmatched_example = calculate_within-unmatched 7 sample 1 (codes "+1") (pos 5) tt

calculate-factor_close_example :
    Machine.calculate (text_factor (number 0 twelve) (b')' ∷ []))
    ≡ (eval_factor (number 0 twelve) >>= λ a. value (pos 0))
calculate-factor_close_example = calculate-factor_close (number 0 twelve)

-- A stack of three slots that holds two elements, and one that is full.
abbrev pair : Stack.Stack
pair = record { used = 2; items = pos 7 ∷ negsuc 4 ∷ pos 0 ∷ []; max_size = 3 }

pair-Holds : Holds 3 pair (negsuc 4 ∷ pos 7 ∷ [])
pair-Holds = record {
  used = refl;
  room = refl;
  limit = refl;
  fits = omega arith;
  stored = (refl, (refl, tt));
}

operations-refine_example :
    (Stack.stack_is_empty pair ≡ false)
    × (Stack.stack_is_full pair ≡ ◌==◌ 2 3)
    × (Stack.stack_top pair ≡ negsuc 4)
    × ((Stack.stack_pop pair).0 ≡ negsuc 4)
    × Holds 3 (Stack.stack_pop pair).1 (pos 7 ∷ [])
    × Holds 3 (Stack.stack_push pair (pos 1)) (pos 1 ∷ negsuc 4 ∷ pos 7 ∷ [])
operations-refine_example = operations-refine (negsuc 4 ∷ pos 7 ∷ []) (pos 1) pair-Holds

main_results : Main.main ≡ value (pos 30 ∷ pos 189 ∷ pos 23 ∷ pos 3 ∷ pos 0 ∷ [])
unfolding Main.main calc
main_results = refl

stack_print_two :
    stack_print (codes "0x10") (Stack.stack_push (Stack.stack_init 2) (negsuc 6))
    ≡ codes "stack 0x10: it:0: data: -7 0 \n"
unfolding stack_print Stack.stack_push Stack.stack_init print_int
stack_print_two = refl
