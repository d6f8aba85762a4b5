-- ===== src/DoubleStack/Correct.antt =====
-- The calculator of double_stack_224.c finds the value of every expression.
use good_command.Common.{
  ℕ, zero, suc, ◌+◌, ◌-◌, ◌≤◌, ◌≡◌, refl, ◌∙◌, [], arith, length, >>=_congr, bind-value,
}
use good_command.Clib.Scan.{is_digit}
use good_command.Clib.Scan.Decimal.{Stops}
use good_command.Expression.{Expr, blanks, text, eval}
use good_command.DoubleStack.Stack.Refine.{list_stack}
use good_command.DoubleStack.Machine.{calc_loop, run, calculate}
use good_command.DoubleStack.Machine.Simulate.{calculate_within-unbounded}
use good_command.DoubleStack.Pending.{pending, pending-finish}
use good_command.Expression.Rounds.{
  more, steps, more-add, length-blanks, steps-add, steps-le-length,
}
use good_command.DoubleStack.Reading.{loop, loop-blanks, loop-expr}

blanks-Stops : (n : ℕ) → Stops (blanks n [])
unfolding is_digit
blanks-Stops zero = tt
blanks-Stops (suc n) = refl

module _ (r : ℕ) where
  -- With at least one round to spare the main loop reads the whole text.
  loop-all :
      (e : Expr) (n fuel : ℕ)
      → steps e 0 + n + 1 ≤ fuel
      → loop r fuel (text e (blanks n [])) ([], []) ≡ pending e ([], [])
  unfolding calc_loop
  loop-all e n fuel h =
      let k = fuel - (steps e 0 + n + 1) in
      let exact : fuel ≡ steps e (more n (suc k)) =
        omega (arith, steps-add e (more n (suc k)), more-add n (suc k)) in
      rw exact (
        loop-expr r e (more n (suc k)) (blanks n []) [] [] (blanks-Stops n) tt
        ∙ >>=_congr (pending e ([], [])) (λ st. loop-blanks (suc (suc (suc r))) n (suc k) [] st)
        ∙ bind-value (pending e ([], [])))

  run-eval :
      (e : Expr) (n : ℕ)
      → length (text e (blanks n [])) ≤ r
      → run list_stack (suc (suc (suc r))) (text e (blanks n [])) ([], []) ≡ eval e
  unfolding run
  run-eval e n h =
      let enough : steps e 0 + n + 1 ≤ suc (suc (suc r)) =
        omega (arith, steps-le-length e (blanks n []), length-blanks n []) in
      rw (loop-all e n (suc (suc (suc r))) enough) (pending-finish r e ∙ bind-value (eval e))

-- On the text of any expression, with blanks anywhere between its tokens and at the ends,
-- `calculate` ends with the value of the expression: products before sums, groups first, operators
-- of one kind from left to right, in the arithmetic of `int`. It traps just where a division does.
pub calculate-eval : (e : Expr) (n : ℕ) → calculate (text e (blanks n [])) ≡ eval e
unfolding calculate
calculate-eval e n =
    let s = text e (blanks n []) in
    let three : length s + 3 ≡ suc (suc (suc (length s))) = omega arith in
    calculate_within-unbounded (length s + 3) s ∙ rw three (run-eval (length s) e n (omega arith))
