-- ===== src/Postfix/Order.antt =====
-- Expressions in postfix order: the text that `mtob` of 224.c is to write, apart from its code.
use good_command.Common.{ℕ, List, [], ◌∷◌, ◌++◌}
use good_command.Common.Int.{ℤ, pos}
use good_command.Clib.Scan.Decimal.{decimal}
use good_command.Clib.Print.{print_int}
use good_command.Expression.{
  Factor, number, group, Term, factor, scale, Expr, term, offset, add_char, mul_char,
}

-- An operator, or a number, and a blank, behind `out`.
abbrev pub emit : ℕ → List ℕ → List ℕ
emit c out = out ++ c ∷ b' ' ∷ []

abbrev pub emit_number : ℤ → List ℕ → List ℕ
emit_number v out = out ++ (print_int v ++ b' ' ∷ [])

-- The operands, then their operator, behind `out`.
unfoldable mutual
  pub postfix_factor : Factor → List ℕ → List ℕ
  postfix_factor (number n l) out = emit_number (pos (decimal 0 (l.first ∷ l.others))) out
  postfix_factor (group n e m) out = postfix e out

  pub postfix_term : Term → List ℕ → List ℕ
  postfix_term (factor f) out = postfix_factor f out
  postfix_term (scale t n op f) out = emit (mul_char op) (postfix_factor f (postfix_term t out))

  pub postfix : Expr → List ℕ → List ℕ
  postfix (term t) out = postfix_term t out
  postfix (offset e n op t) out = emit (add_char op) (postfix_term t (postfix e out))
