-- ===== src/Scanner/Laws.antt =====
-- What sscanf.c prints for the text of an expression.
use good_command.Common.{
  ℕ, zero, suc, ◌+◌, ◌-◌, ◌≡◌, refl, ◌∙◌, true, List, [], ◌∷◌, ◌++◌, arith, length, value,
}
use good_command.Common.Int.{pos}
use good_command.Clib.Scan.{is_digit}
use good_command.Clib.Scan.Decimal.{decimal, numeral, Stops, drop-numeral}
use good_command.Clib.Print.{print_int}
use good_command.Expression.{
  AddOp, plus, minus, MulOp, times, over, Factor, number, group, Term, factor, scale, Expr, term,
  offset, add_char, mul_char, blanks, text_factor, text_term, text,
}
use good_command.Expression.Literals.{scan-Literal}
use good_command.Expression.Rounds.{
  more, steps_factor, steps_term, steps, more-add, length-blanks, steps-add, steps-le-length,
  blanks-Stops, mul_char-Stops, add_char-Stops, close_no_digit,
}
use good_command.Scanner.{is_legal_op, token_loop, print_tokens}

-- One line, behind `out`.
abbrev pub line : ℕ → List ℕ → List ℕ
line c out = out ++ c ∷ 10 ∷ []

-- The tokens of an expression from left to right, each on its line, behind `out`.
unfoldable mutual
  pub tokens_factor : Factor → List ℕ → List ℕ
  tokens_factor (number n l) out =
      out ++ (print_int (pos (decimal 0 (l.first ∷ l.others))) ++ 10 ∷ [])
  tokens_factor (group n e m) out = line b')' (tokens_expr e (line b'(' out))

  pub tokens_term : Term → List ℕ → List ℕ
  tokens_term (factor f) out = tokens_factor f out
  tokens_term (scale t n op f) out = tokens_factor f (line (mul_char op) (tokens_term t out))

  pub tokens_expr : Expr → List ℕ → List ℕ
  tokens_expr (term t) out = tokens_term t out
  tokens_expr (offset e n op t) out = tokens_term t (line (add_char op) (tokens_expr e out))

loop-blanks :
    (n k : ℕ) (s out : List ℕ) → token_loop (more n k) (blanks n s) out ≡ token_loop k s out
unfolding token_loop more is_legal_op
loop-blanks zero k s out = refl
loop-blanks (suc n) k s out = loop-blanks n k s out

-- Blanks, and an operator.
loop-operator :
    (n c k : ℕ) (s out : List ℕ)
    → is_legal_op c ≡ true
    → token_loop (more n (suc k)) (blanks n (c ∷ s)) out ≡ token_loop k s (line c out)
unfolding token_loop
loop-operator n c k s out h = loop-blanks n (suc k) (c ∷ s) out ∙ rw h refl

mul_legal : (op : MulOp) → is_legal_op (mul_char op) ≡ true
unfolding is_legal_op
mul_legal times = refl
mul_legal over = refl

add_legal : (op : AddOp) → is_legal_op (add_char op) ≡ true
unfolding is_legal_op
add_legal plus = refl
add_legal minus = refl

mutual
  unfolding steps text tokens_expr token_loop is_legal_op

  loop-factor :
      (f : Factor) (k : ℕ) (rest out : List ℕ)
      → Stops rest
      → token_loop (steps_factor f k) (text_factor f rest) out
        ≡ token_loop k rest (tokens_factor f out)
  loop-factor (number n l) k rest out h =
      loop-blanks n (suc k) (numeral (l.first ∷ l.others) rest) out
      ∙ scan-Literal l rest (is_legal_op (b'0' + l.first)) _ _ _ _ h (ground (arith, l.valid.0))
      ∙ rw (drop-numeral l.others rest) refl
  loop-factor (group n e m) k rest out h =
      loop-operator n b'(' (steps e (more m (suc k))) (text e (blanks m (b')' ∷ rest))) out refl
      ∙ loop-expr e (more m (suc k)) (blanks m (b')' ∷ rest)) (line b'(' out)
          (blanks-Stops m b')' rest close_no_digit)
      ∙ loop-operator m b')' k rest (tokens_expr e (line b'(' out)) refl

  loop-term :
      (t : Term) (k : ℕ) (rest out : List ℕ)
      → Stops rest
      → token_loop (steps_term t k) (text_term t rest) out ≡ token_loop k rest (tokens_term t out)
  loop-term (factor f) k rest out h = loop-factor f k rest out h
  loop-term (scale t n op f) k rest out h =
      loop-term t (more n (suc (steps_factor f k))) (blanks n (mul_char op ∷ text_factor f rest))
        out (blanks-Stops n (mul_char op) (text_factor f rest) (mul_char-Stops op))
      ∙ loop-operator n (mul_char op) (steps_factor f k) (text_factor f rest) (tokens_term t out)
          (mul_legal op)
      ∙ loop-factor f k rest (line (mul_char op) (tokens_term t out)) h

  loop-expr :
      (e : Expr) (k : ℕ) (rest out : List ℕ)
      → Stops rest
      → token_loop (steps e k) (text e rest) out ≡ token_loop k rest (tokens_expr e out)
  loop-expr (term t) k rest out h = loop-term t k rest out h
  loop-expr (offset e n op t) k rest out h =
      loop-expr e (more n (suc (steps_term t k))) (blanks n (add_char op ∷ text_term t rest)) out
        (blanks-Stops n (add_char op) (text_term t rest) (add_char-Stops op))
      ∙ loop-operator n (add_char op) (steps_term t k) (text_term t rest) (tokens_expr e out)
          (add_legal op)
      ∙ loop-term t k rest (line (add_char op) (tokens_expr e out)) h

nil-Stops : (n : ℕ) → Stops (blanks n [])
unfolding is_digit
nil-Stops zero = tt
nil-Stops (suc n) = refl

-- On the text of any expression, with blanks anywhere between its tokens and at the ends, the loop ends,
-- and prints the tokens from left to right, each on its line, and an empty line.
pub print_tokens-tokens_expr :
    (e : Expr) (n : ℕ) → print_tokens (text e (blanks n [])) ≡ value (tokens_expr e [] ++ 10 ∷ [])
unfolding print_tokens token_loop
print_tokens-tokens_expr e n =
    let s = text e (blanks n []) in
    let k = length s + 1 - (steps e 0 + n + 1) in
    let exact : length s + 1 ≡ steps e (more n (suc k)) = omega (
      arith,
      steps-add e (more n (suc k)),
      more-add n (suc k),
      steps-le-length e (blanks n []),
      length-blanks n [],
    ) in
    rw exact (
      rw (loop-expr e (more n (suc k)) (blanks n []) [] (nil-Stops n))
        (rw (loop-blanks n (suc k) [] (tokens_expr e [])) refl))
