-- ===== src/DoubleStack/Malformed.antt =====
-- What `calculate` of double_stack_224.c does with texts that are no expressions.
use good_command.Common.{
  bind-value_inv, ℕ, suc, ◌+◌, ◌-◌, ◌≤◌, ◌≡◌, ◌≢◌, refl, sym, ◌∙◌, false, List, [], ◌∷◌, arith,
  length, value, ◌>>=◌, >>=_congr, >>=_assoc,
}
use mathlib.Core.Path.{subst}
use good_command.Common.Int.{ℤ, pos}
use good_command.Clib.Scan.{is_digit}
use good_command.Expression.{IsCompound, Factor, Expr, blanks, text, text_factor, eval_factor}
use good_command.DoubleStack.Stack.Refine.{list_stack}
use good_command.DoubleStack.Machine.{
  do_one_cal, Stacks, close_loop, on_operator, calc_loop, run, finish, flush_loop, pop_and_cal,
  calculate_within, calculate, is_legal_op,
}
use good_command.DoubleStack.Machine.Simulate.{calculate_within-unbounded}
use good_command.Expression.Rounds.{steps_factor, close_no_digit, add_factor, le_factor}
use good_command.DoubleStack.Reading.{loop, loop-operator, loop-factor, close_legal}
use good_command.DoubleStack.Hang.{
  IsStuck, stuck-no_fuel, Waiting, close_loop-ne-value, pending-Waiting, reach,
}

-- A byte that starts no token, behind an expression: `calculate` ends with no value, however many
-- rounds its loops are given. The source's loop reads the same byte again and again.
pub calculate_within-stuck :
    (r : ℕ) (e : Expr) (n c : ℕ) (s : List ℕ) (v : ℤ)
    → is_digit c ≡ false
    → IsStuck c s
    → calculate_within (r + 3) (text e (blanks n (c ∷ s))) ≢ value v
calculate_within-stuck r e n c s v no_digit stuck h =
    let (st, end, _, rest) = reach r e n c s v no_digit h in
    cc (rest, stuck-no_fuel (suc (suc (suc r))) (suc (suc (suc (suc r)))) c s st stuck)

on_close-ne-value :
    (r : ℕ) (os ns : List ℤ) (end : Stacks list_stack)
    → Waiting os
    → on_operator list_stack r b')' (os, ns) ≢ value end
unfolding on_operator
on_close-ne-value r [] ns end w h = cc (w.1)
on_close-ne-value r (o ∷ os) ns end w h =
    let (mid, first, _) = bind-value_inv (close_loop list_stack r (o ∷ os, ns)) _ h in
    close_loop-ne-value r (o ∷ os, ns) mid w.0 first

-- A closing parenthesis behind an expression with an operator outside all parentheses:
-- `calculate` ends with no value, however many rounds its loops are given.
pub calculate_within-unmatched :
    (r : ℕ) (e : Expr) (n : ℕ) (s : List ℕ) (v : ℤ)
    → IsCompound e
    → calculate_within (r + 3) (text e (blanks n (b')' ∷ s))) ≢ value v
calculate_within-unmatched r e n s v compound h =
    let (st, end, first, rest) = reach r e n b')' s v close_no_digit h in
    let read = loop-operator (suc (suc (suc r))) b')' (suc (suc (suc r))) s st close_legal in
    let (mid, closed, _) =
      bind-value_inv (on_operator list_stack (suc (suc (suc r))) b')' st) _ (sym read ∙ rest) in
    on_close-ne-value (suc (suc (suc r))) st.0 st.1 mid (pending-Waiting e st compound first) closed

-- After a lone factor the parenthesis waits as an operator, and is applied at the end.
finish-close :
    (r : ℕ) (a : ℤ) → finish list_stack (suc (suc r)) (pos b')' ∷ [], a ∷ []) ≡ value (pos 0)
unfolding finish flush_loop pop_and_cal do_one_cal
finish-close r a = refl

loop-close :
    (r k : ℕ) (a : ℤ)
    → loop r (suc (suc k)) (b')' ∷ []) ([], a ∷ []) ≡ value (pos b')' ∷ [], a ∷ [])
unfolding calc_loop on_operator is_legal_op
loop-close r k a = refl

run-factor_close :
    (r : ℕ) (f : Factor)
    → length (text_factor f (b')' ∷ [])) ≤ r
    → run list_stack (suc (suc (suc r))) (text_factor f (b')' ∷ [])) ([], [])
      ≡ (eval_factor f >>= λ a. value (pos 0))
unfolding run
run-factor_close r f h =
    let R = suc (suc (suc r)) in
    let k = R - (steps_factor f 0 + 2) in
    let exact : R ≡ steps_factor f (suc (suc k)) =
      omega (arith, add_factor f (suc (suc k)), le_factor f (b')' ∷ [])) in
    let read : loop r R (text_factor f (b')' ∷ [])) ([], [])
        ≡ (eval_factor f >>= λ a. value (pos b')' ∷ [], a ∷ [])) =
      subst
        (λ n.
          loop r n (text_factor f (b')' ∷ [])) ([], [])
          ≡ (eval_factor f >>= λ a. value (pos b')' ∷ [], a ∷ [])))
        (sym exact)
        (loop-factor r f (suc (suc k)) (b')' ∷ []) [] [] close_no_digit
          ∙ >>=_congr (eval_factor f) (loop-close r k)) in
    rw read (>>=_assoc (eval_factor f) _ _ ∙ >>=_congr (eval_factor f) (finish-close (suc r)))

-- A closing parenthesis behind a lone number or group is no error either: `calculate` ends with 0,
-- whatever the number or the group is worth.
pub calculate-factor_close :
    (f : Factor) → calculate (text_factor f (b')' ∷ [])) ≡ (eval_factor f >>= λ a. value (pos 0))
unfolding calculate
calculate-factor_close f =
    let s = text_factor f (b')' ∷ []) in
    let three : length s + 3 ≡ suc (suc (suc (length s))) = omega arith in
    calculate_within-unbounded (length s + 3) s
    ∙ rw three (run-factor_close (length s) f (omega arith))
