-- ===== src/DoubleStack/Reading.antt =====
-- The main loop of double_stack_224.c over the text of an expression, on unbounded stacks.
use good_command.Common.{
  ℕ, zero, suc, ◌+◌, ◌≡◌, refl, sym, ◌∙◌, true, List, [], ◌∷◌, arith, Exec, value, ◌>>=◌, >>=_assoc,
  >>=_congr,
}
use good_command.Common.Int.{ℤ, pos}
use good_command.Clib.Scan.Decimal.{decimal, numeral, Stops, drop-numeral}
use good_command.Expression.{
  Literal, Factor, number, group, Term, factor, scale, Expr, term, offset, add_char, mul_char,
  blanks, text_factor, text_term, text, eval_factor, eval_term, eval,
}
use good_command.Expression.Literals.{scan-Literal}
use good_command.Expression.Rounds.{
  more, steps_factor, steps_term, steps, blanks-Stops, mul_char-Stops, add_char-Stops,
  close_no_digit,
}
use good_command.DoubleStack.Stack.Refine.{list_stack}
use good_command.DoubleStack.Machine.{is_legal_op, Stacks, on_operator, calc_loop}
use good_command.DoubleStack.Machine.Reduce.{Weak, on_open, open-Weak}
use good_command.DoubleStack.Pending.{
  pending_term, pending, mul_char-IsOperator, add_char-IsOperator, pending_term-on_operator,
  pending-on_operator, pending-on_close,
}

open_legal : is_legal_op b'(' ≡ true
unfolding is_legal_op
open_legal = refl

pub close_legal : is_legal_op b')' ≡ true
unfolding is_legal_op
close_legal = refl

Weak-up : (os : List ℤ) → Weak 1 os → Weak 2 os
Weak-up [] w = tt
Weak-up (o ∷ os) (q, e, lt) = (q, e, omega arith)

module _ (rounds : ℕ) where
  pub loop-blanks :
      (n k : ℕ) (s : List ℕ) (st : Stacks list_stack)
      → calc_loop list_stack rounds (more n k) (blanks n s) st ≡ calc_loop list_stack rounds k s st
  unfolding calc_loop more is_legal_op
  loop-blanks zero k s st = refl
  loop-blanks (suc n) k s st = loop-blanks n k s st

  pub loop-operator :
      (c k : ℕ) (s : List ℕ) (st : Stacks list_stack)
      → is_legal_op c ≡ true
      → calc_loop list_stack rounds (suc k) (c ∷ s) st
        ≡ (on_operator list_stack rounds c st >>= calc_loop list_stack rounds k s)
  unfolding calc_loop
  loop-operator c k s st h = rw h refl

  loop-number :
      (l : Literal) (k : ℕ) (rest : List ℕ) (st : Stacks list_stack)
      → Stops rest
      → calc_loop list_stack rounds (suc k) (numeral (l.first ∷ l.others) rest) st
        ≡ calc_loop list_stack rounds k rest (st.0, pos (decimal 0 (l.first ∷ l.others)) ∷ st.1)
  unfolding calc_loop
  loop-number l k rest st h =
      scan-Literal l rest (is_legal_op (b'0' + l.first)) _ _ _ _ h
        (unfold is_legal_op in ground (arith, l.valid.0))
      ∙ rw (drop-numeral l.others rest) refl

module _ (r : ℕ) where
  abbrev pub loop : ℕ → List ℕ → Stacks list_stack → Exec (Stacks list_stack)
  loop = calc_loop list_stack (suc (suc (suc r)))

  -- Blanks and an operator behind what a run `m` leaves.
  loop-behind :
      (m : Exec (Stacks list_stack)) (n c k : ℕ) (s : List ℕ)
      → is_legal_op c ≡ true
      → (m >>= loop (more n (suc k)) (blanks n (c ∷ s)))
        ≡ ((m >>= on_operator list_stack (suc (suc (suc r))) c) >>= loop k s)
  loop-behind m n c k s h =
      >>=_congr m (λ st.
        loop-blanks (suc (suc (suc r))) n (suc k) (c ∷ s) st
        ∙ loop-operator (suc (suc (suc r))) c k s st h)
      ∙ sym (>>=_assoc m _ _)

  mutual
    unfolding steps text eval pending_term pending

    pub loop-factor :
        (f : Factor) (k : ℕ) (rest : List ℕ) (os ns : List ℤ)
        → Stops rest
        → loop (steps_factor f k) (text_factor f rest) (os, ns)
          ≡ (eval_factor f >>= λ a. loop k rest (os, a ∷ ns))
    loop-factor (number n l) k rest os ns h =
        loop-blanks (suc (suc (suc r))) n (suc k) _ (os, ns)
        ∙ loop-number (suc (suc (suc r))) l k rest (os, ns) h
    loop-factor (group n e m) k rest os ns h =
        loop-behind (value (os, ns)) n b'(' (steps e (more m (suc k))) _ open_legal
        ∙ rw (on_open (suc (suc (suc r))) os ns) (
            loop-expr e (more m (suc k)) (blanks m (b')' ∷ rest)) (pos b'(' ∷ os) ns
              (blanks-Stops m b')' rest close_no_digit) (open-Weak os)
            ∙ loop-behind (pending e (pos b'(' ∷ os, ns)) m b')' k rest close_legal
            ∙ rw (pending-on_close r e os ns) (simp >>=_assoc))

    loop-term :
        (t : Term) (k : ℕ) (rest : List ℕ) (os ns : List ℤ)
        → Stops rest
        → Weak 2 os
        → loop (steps_term t k) (text_term t rest) (os, ns)
          ≡ (pending_term t (os, ns) >>= loop k rest)
    loop-term (factor f) k rest os ns h w = loop-factor f k rest os ns h ∙ simp >>=_assoc
    loop-term (scale t n op f) k rest os ns h w =
        loop-term t (more n (suc (steps_factor f k))) _ os ns
          (blanks-Stops n (mul_char op) _ (mul_char-Stops op)) w
        ∙ loop-behind (pending_term t (os, ns)) n (mul_char op) (steps_factor f k) _
            (mul_char-IsOperator op).legal
        ∙ rw (pending_term-on_operator (suc r) op t os ns w) (
            simp >>=_assoc (
              >>=_congr (eval_term t)
                λ a. loop-factor f k rest (pos (mul_char op) ∷ os) (a ∷ ns) h))

    pub loop-expr :
        (e : Expr) (k : ℕ) (rest : List ℕ) (os ns : List ℤ)
        → Stops rest
        → Weak 1 os
        → loop (steps e k) (text e rest) (os, ns) ≡ (pending e (os, ns) >>= loop k rest)
    loop-expr (term t) k rest os ns h w = loop-term t k rest os ns h (Weak-up os w)
    loop-expr (offset e n op t) k rest os ns h w =
        loop-expr e (more n (suc (steps_term t k))) _ os ns
          (blanks-Stops n (add_char op) _ (add_char-Stops op)) w
        ∙ loop-behind (pending e (os, ns)) n (add_char op) (steps_term t k) _
            (add_char-IsOperator op).legal
        ∙ rw (pending-on_operator r op e os ns w) (
            simp >>=_assoc (
              >>=_congr (eval e) λ a.
                loop-term t k rest (pos (add_char op) ∷ os) (a ∷ ns) h
                  (1, (add_char-IsOperator op).has_prio, omega arith)))
