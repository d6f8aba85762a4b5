-- ===== src/Postfix/Correct.antt =====
-- What 224.c finds for the text of an expression, and the two calculators compared.
use good_command.Common.{
  ℕ, suc, ◌+◌, ◌≤◌, ◌≡◌, refl, List, [], ◌∷◌, ◌++◌, arith, length, length-append, Exec, value, trap,
  no_fuel, ◌>>=◌, Agree, values, Yields, Agree-Yields, Yields-Agree, traps, no_fuels,
}
use mathlib.Core.Path.{subst}
use good_command.Common.Int.{ℤ, pos}
use good_command.Clib.Scan.Decimal.{decimal}
use good_command.Clib.Print.{print_int}
use good_command.Expression.{
  Factor, number, group, Term, factor, scale, Expr, term, offset, add_char, mul_char, blanks, text,
  eval,
}
use good_command.Postfix.Order.{postfix_factor, postfix_term, postfix}
use good_command.Postfix.Stack.{Stack}
use good_command.Postfix.Translate.{mtob_within, mtob}
use good_command.Postfix.Translate.Reading.{convert-postfix}
use good_command.Postfix.Translate.Simulate.{mtob_within-unbounded}
use good_command.Postfix.Translate.Simulate
use good_command.Postfix.Evaluate.{cal_bstr, evaluate}
use good_command.Postfix.Evaluate.Bounded.{list_numbers, cal_bstr_within-unbounded}
use good_command.Postfix.Evaluate.Bounded
use good_command.Postfix.Evaluate.Order.{evaluate-postfix}
use good_command.Postfix.Calculate.{calculate}
use good_command.DoubleStack.Machine
use good_command.DoubleStack.Correct

-- The run ends with `a`, and `it` is at -1 again.
abbrev pub Ends : {A : Type 0} → A × Stack → A → Type 0
Ends r a = (r.0 ≡ a) × (r.1.used ≡ 0)

-- On the text of any expression, with blanks anywhere between its tokens and at the ends, and with
-- `it` at -1, `mtob` ends with the postfix text of the expression, and `it` is at -1 again.
pub mtob-postfix :
    (e : Expr) (n : ℕ) (stack : Stack)
    → stack.used ≡ 0
    → Yields (λ r. Ends r (postfix e [])) (mtob (text e (blanks n [])) stack)
unfolding mtob
mtob-postfix e n stack h =
    let s = text e (blanks n []) in
    let three : length s + 3 ≡ suc (suc (suc (length s))) = omega arith in
    rw three (
      Agree-Yields _
        (subst (λ m. Agree Simulate.Leaves (mtob_within (suc (suc (suc (length s)))) s stack) m)
          (convert-postfix (length s) e n (omega arith))
          (mtob_within-unbounded (suc (suc (suc (length s)))) s stack (omega arith) h))
        λ r left. (left.text, left.used))

Postfix-ne-nil : (s : List ℕ) → 1 ≤ length s → (c : ℕ) × (t : List ℕ) × (s ≡ c ∷ t)
Postfix-ne-nil [] h = absurd (omega arith)
Postfix-ne-nil (c ∷ t) h = (c, t, refl)

-- Every expression has a number.
mutual
  unfolding postfix

  grows_factor : (f : Factor) (out : List ℕ) → length out + 1 ≤ length (postfix_factor f out)
  grows_factor (number n l) out =
      let v = pos (decimal 0 (l.first ∷ l.others)) in
      omega (
        arith,
        length-append out (print_int v ++ b' ' ∷ []),
        length-append (print_int v) (b' ' ∷ []),
      )
  grows_factor (group n e m) out = grows_expr e out

  grows_term : (t : Term) (out : List ℕ) → length out + 1 ≤ length (postfix_term t out)
  grows_term (factor f) out = grows_factor f out
  grows_term (scale t n op f) out =
      let operands = postfix_factor f (postfix_term t out) in
      omega (
        arith,
        length-append operands (mul_char op ∷ b' ' ∷ []),
        grows_factor f (postfix_term t out),
        grows_term t out,
      )

  pub grows_expr : (e : Expr) (out : List ℕ) → length out + 1 ≤ length (postfix e out)
  grows_expr (term t) out = grows_term t out
  grows_expr (offset e n op t) out =
      let operands = postfix_term t (postfix e out) in
      omega (
        arith,
        length-append operands (add_char op ∷ b' ' ∷ []),
        grows_term t (postfix e out),
        grows_expr e out,
      )

cal_bstr-unbounded :
    (s : List ℕ) (stack : Stack)
    → 1 ≤ length s
    → stack.used ≡ 0
    → Agree Bounded.Leaves (cal_bstr s stack) (evaluate list_numbers (length s + 1) s [])
unfolding cal_bstr
cal_bstr-unbounded [] stack some_byte h = absurd (omega arith)
cal_bstr-unbounded (c ∷ s) stack some_byte h =
    cal_bstr_within-unbounded (length (c ∷ s) + 1) c s stack h

Ends-of :
    {m : Exec (ℤ × Stack)} (n : Exec ℤ)
    → Agree Bounded.Leaves m (n >>= λ v. value (v, []))
    → Agree Ends m n
Ends-of (value v) (values left) = values (left.number, left.used)
Ends-of trap traps = traps
Ends-of no_fuel no_fuels = no_fuels

-- On the postfix text of an expression, with `it` at -1, `cal_bstr` ends with the value of the
-- expression, and `it` is at -1 again. It traps just where a division in the expression does.
pub cal_bstr-postfix :
    (e : Expr) (stack : Stack)
    → stack.used ≡ 0
    → Agree Ends (cal_bstr (postfix e []) stack) (eval e)
cal_bstr-postfix e stack h =
    let s = postfix e [] in
    Ends-of (eval e) (
      subst (λ m. Agree Bounded.Leaves (cal_bstr s stack) m)
        (evaluate-postfix e (length s + 1) (omega arith))
        (cal_bstr-unbounded s stack (omega (arith, grows_expr e [])) h))

-- On the text of any expression, with blanks anywhere between its tokens and at the ends, and with
-- `it` at -1, `calculate` ends with the value of the expression, and `it` is at -1 again. It traps
-- just where a division in the expression does.
pub calculate-Ends :
    (e : Expr) (n : ℕ) (stack : Stack)
    → stack.used ≡ 0
    → Agree Ends (calculate (text e (blanks n [])) stack) (eval e)
unfolding calculate
calculate-Ends e n stack h =
    Yields-Agree _ (mtob (text e (blanks n [])) stack) (mtob-postfix e n stack h)
      λ r (same, clean). rw same (cal_bstr-postfix e r.1 clean)

-- On the text of any expression the two calculators, that of 224.c with `it` at -1 and that of
-- double_stack_224.c, end the same way, and with the same value.
pub calculate-same :
    (e : Expr) (n : ℕ) (stack : Stack)
    → stack.used ≡ 0
    → Agree Ends (calculate (text e (blanks n [])) stack) (Machine.calculate (text e (blanks n [])))
calculate-same e n stack h = rw (Correct.calculate-eval e n) (calculate-Ends e n stack h)
