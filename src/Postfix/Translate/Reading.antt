-- ===== src/Postfix/Translate/Reading.antt =====
-- The main loop of `mtob` in 224.c over the text of an expression, on plain lists.
use good_command.Common.{
  ℕ, zero, suc, ◌+◌, ◌-◌, ◌≤◌, ◌≡◌, refl, ◌∙◌, true, List, [], ◌∷◌, arith, length, Exec, value,
  ◌>>=◌,
}
use good_command.Common.Int.{pos}
use good_command.Clib.Scan.{is_digit}
use good_command.Clib.Scan.Decimal.{decimal, numeral, Stops, drop-numeral}
use good_command.Expression.{
  Literal, Factor, number, group, Term, factor, scale, Expr, term, offset, add_char, mul_char,
  blanks, text_factor, text_term, text,
}
use good_command.Expression.Literals.{scan-Literal}
use good_command.Expression.Rounds.{
  more, steps_factor, steps_term, steps, more-add, length-blanks, steps-add, steps-le-length,
  blanks-Stops, mul_char-Stops, add_char-Stops, close_no_digit,
}
use good_command.Postfix.Order.{emit_number, postfix_factor, postfix_term, postfix}
use good_command.Postfix.Translate.{is_legal_op, on_operator, convert_loop, convert}
use good_command.Postfix.Translate.Lists.{
  list_sink, IsWeak, IsWeak-up, mul_char-IsOperator, add_char-IsOperator, on_open, open-IsWeak,
}
use good_command.Postfix.Translate.Waiting.{
  waiting_term, waiting, waiting_term-on_operator, waiting-on_operator, waiting-on_close,
  waiting-flush,
}

open_legal : is_legal_op b'(' ≡ true
unfolding is_legal_op
open_legal = refl

pub close_legal : is_legal_op b')' ≡ true
unfolding is_legal_op
close_legal = refl

module _ (r : ℕ) where
  abbrev pub loop : ℕ → List ℕ → List ℕ × List ℕ → Exec (List ℕ × List ℕ)
  loop = convert_loop list_sink (suc (suc (suc r)))

  loop-blanks :
      (n k : ℕ) (s : List ℕ) (st : List ℕ × List ℕ) → loop (more n k) (blanks n s) st ≡ loop k s st
  unfolding convert_loop more is_legal_op
  loop-blanks zero k s st = refl
  loop-blanks (suc n) k s st = loop-blanks n k s st

  -- Blanks, and an operator.
  pub loop-blanks_operator :
      (n c k : ℕ) (s : List ℕ) (st : List ℕ × List ℕ)
      → is_legal_op c ≡ true
      → loop (more n (suc k)) (blanks n (c ∷ s)) st
        ≡ (on_operator list_sink (suc (suc (suc r))) c st >>= loop k s)
  unfolding convert_loop
  loop-blanks_operator n c k s st h = loop-blanks n (suc k) (c ∷ s) st ∙ rw h refl

  -- Blanks, and an operator that ends with a value.
  loop-operator :
      (n c k : ℕ) (s : List ℕ) (st st' : List ℕ × List ℕ)
      → is_legal_op c ≡ true
      → on_operator list_sink (suc (suc (suc r))) c st ≡ value st'
      → loop (more n (suc k)) (blanks n (c ∷ s)) st ≡ loop k s st'
  loop-operator n c k s st st' h e = loop-blanks_operator n c k s st h ∙ rw e refl

  loop-number :
      (l : Literal) (k : ℕ) (rest : List ℕ) (os out : List ℕ)
      → Stops rest
      → loop (suc k) (numeral (l.first ∷ l.others) rest) (os, out)
        ≡ loop k rest (os, emit_number (pos (decimal 0 (l.first ∷ l.others))) out)
  unfolding convert_loop
  loop-number l k rest os out h =
      scan-Literal l rest (is_legal_op (b'0' + l.first)) _ _ _ _ h
        (unfold is_legal_op in ground (arith, l.valid.0))
      ∙ rw (drop-numeral l.others rest) refl

  mutual
    unfolding steps text postfix waiting_term waiting

    loop-factor :
        (f : Factor) (k : ℕ) (rest : List ℕ) (os out : List ℕ)
        → Stops rest
        → loop (steps_factor f k) (text_factor f rest) (os, out)
          ≡ loop k rest (os, postfix_factor f out)
    loop-factor (number n l) k rest os out h =
        loop-blanks n (suc k) _ (os, out) ∙ loop-number l k rest os out h
    loop-factor (group n e m) k rest os out h =
        loop-operator n b'(' (steps e (more m (suc k))) _ (os, out) (b'(' ∷ os, out) open_legal
          (on_open (suc (suc (suc r))) os out)
        ∙ loop-expr e (more m (suc k)) (blanks m (b')' ∷ rest)) (b'(' ∷ os) out
            (blanks-Stops m b')' rest close_no_digit) (open-IsWeak os)
        ∙ loop-operator m b')' k rest (waiting e (b'(' ∷ os, out)) (os, postfix e out) close_legal
            (waiting-on_close r e os out)

    loop-term :
        (t : Term) (k : ℕ) (rest : List ℕ) (os out : List ℕ)
        → Stops rest
        → IsWeak 2 os
        → loop (steps_term t k) (text_term t rest) (os, out)
          ≡ loop k rest (waiting_term t (os, out))
    loop-term (factor f) k rest os out h w = loop-factor f k rest os out h
    loop-term (scale t n op f) k rest os out h w =
        loop-term t (more n (suc (steps_factor f k))) _ os out
          (blanks-Stops n (mul_char op) _ (mul_char-Stops op)) w
        ∙ loop-operator n (mul_char op) (steps_factor f k) _ (waiting_term t (os, out)) _
            (mul_char-IsOperator op).legal (waiting_term-on_operator (suc r) op t os out w)
        ∙ loop-factor f k rest (mul_char op ∷ os) (postfix_term t out) h

    pub loop-expr :
        (e : Expr) (k : ℕ) (rest : List ℕ) (os out : List ℕ)
        → Stops rest
        → IsWeak 1 os
        → loop (steps e k) (text e rest) (os, out) ≡ loop k rest (waiting e (os, out))
    loop-expr (term t) k rest os out h w = loop-term t k rest os out h (IsWeak-up os w)
    loop-expr (offset e n op t) k rest os out h w =
        loop-expr e (more n (suc (steps_term t k))) _ os out
          (blanks-Stops n (add_char op) _ (add_char-Stops op)) w
        ∙ loop-operator n (add_char op) (steps_term t k) _ (waiting e (os, out)) _
            (add_char-IsOperator op).legal (waiting-on_operator r op e os out w)
        ∙ loop-term t k rest (add_char op ∷ os) (postfix e out) h
            (1, (add_char-IsOperator op).has_prio, omega arith)

  blanks-Stops_nil : (n : ℕ) → Stops (blanks n [])
  unfolding is_digit
  blanks-Stops_nil zero = tt
  blanks-Stops_nil (suc n) = refl

  -- With at least one round to spare the main loop reads the whole text.
  loop-all :
      (e : Expr) (n fuel : ℕ)
      → steps e 0 + n + 1 ≤ fuel
      → loop fuel (text e (blanks n [])) ([], []) ≡ value (waiting e ([], []))
  unfolding convert_loop
  loop-all e n fuel h =
      let k = fuel - (steps e 0 + n + 1) in
      let exact : fuel ≡ steps e (more n (suc k)) =
        omega (arith, steps-add e (more n (suc k)), more-add n (suc k)) in
      rw exact (
        loop-expr e (more n (suc k)) (blanks n []) [] [] (blanks-Stops_nil n) tt
        ∙ loop-blanks n (suc k) [] (waiting e ([], [])))

  pub convert-postfix :
      (e : Expr) (n : ℕ)
      → length (text e (blanks n [])) ≤ r
      → convert list_sink (suc (suc (suc r))) (text e (blanks n [])) ([], [])
        ≡ value ([], postfix e [])
  unfolding convert
  convert-postfix e n h =
      let enough : steps e 0 + n + 1 ≤ suc (suc (suc r)) =
        omega (arith, steps-le-length e (blanks n []), length-blanks n []) in
      rw (loop-all e n (suc (suc (suc r))) enough) (waiting-flush r e)
