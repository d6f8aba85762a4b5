-- ===== src/Postfix/Translate/Waiting.antt =====
-- What waits and what is written when `mtob` of 224.c has read the text of an expression.
use good_command.Common.{ℕ, suc, ◌≡◌, refl, ◌∙◌, List, [], ◌∷◌, arith, Exec, value}
use good_command.Expression.{
  AddOp, MulOp, Term, factor, scale, Expr, term, offset, add_char, mul_char,
}
use good_command.Postfix.Order.{emit, postfix_factor, postfix_term, postfix}
use good_command.Postfix.Translate.{flush_loop, on_operator}
use good_command.Postfix.Translate.Lists.{
  list_sink, IsOperator, mul_char-IsOperator, add_char-IsOperator, IsWeak, on_operator-IsWeak,
  on_operator-strong, on_close-open, on_close-strong,
}

-- The last operator of a product waits, behind its operands; what stands left of it is written.
unfoldable pub waiting_term : Term → List ℕ × List ℕ → List ℕ × List ℕ
waiting_term (factor f) (os, out) = (os, postfix_factor f out)
waiting_term (scale t n op f) (os, out) = (mul_char op ∷ os, postfix_factor f (postfix_term t out))

unfoldable pub waiting : Expr → List ℕ × List ℕ → List ℕ × List ℕ
waiting (term t) st = waiting_term t st
waiting (offset e n op t) (os, out) = waiting_term t (add_char op ∷ os, postfix e out)

-- A loop `K`, told apart by the rounds it has left, that writes what waits above `os` and is `done`.
module _ {ℓ} {X : Type ℓ} (K : ℕ → List ℕ × List ℕ → Exec X) (done : List ℕ → Exec X) (os : List ℕ)
    (stops : (r : ℕ) (out : List ℕ) → K (suc r) (os, out) ≡ done out)
    (moves_mul : (r : ℕ) (m : MulOp) (out : List ℕ)
      → K (suc r) (mul_char m ∷ os, out) ≡ K r (os, emit (mul_char m) out)) where
  collapse_term :
      (t : Term) (r : ℕ) (out : List ℕ)
      → K (suc (suc r)) (waiting_term t (os, out)) ≡ done (postfix_term t out)
  unfolding waiting_term postfix_term
  collapse_term (factor f) r out = stops (suc r) (postfix_factor f out)
  collapse_term (scale t n m f) r out =
      moves_mul (suc r) m (postfix_factor f (postfix_term t out)) ∙ stops r _

  module _
      (moves_add : (r : ℕ) (p : AddOp) (out : List ℕ)
        → K (suc r) (add_char p ∷ os, out) ≡ K r (os, emit (add_char p) out))
      (moves_above : (r : ℕ) (m : MulOp) (p : AddOp) (out : List ℕ)
        → K (suc r) (mul_char m ∷ add_char p ∷ os, out)
          ≡ K r (add_char p ∷ os, emit (mul_char m) out)) where
    collapse :
        (e : Expr) (r : ℕ) (out : List ℕ)
        → K (suc (suc (suc r))) (waiting e (os, out)) ≡ done (postfix e out)
    unfolding waiting waiting_term postfix postfix_term
    collapse (term t) r out = collapse_term t (suc r) out
    collapse (offset e n p (factor f)) r out =
        moves_add (suc (suc r)) p (postfix_factor f (postfix e out)) ∙ stops (suc r) _
    collapse (offset e n p (scale t k m f)) r out =
        moves_above (suc (suc r)) m p (postfix_factor f (postfix_term t (postfix e out)))
        ∙ moves_add (suc r) p _
        ∙ stops r _

-- Behind a product `*` and `/` write it, and wait.
pub waiting_term-on_operator :
    (r : ℕ) (o : MulOp) (t : Term) (os out : List ℕ)
    → IsWeak 2 os
    → on_operator list_sink (suc (suc r)) (mul_char o) (waiting_term t (os, out))
      ≡ value (mul_char o ∷ os, postfix_term t out)
waiting_term-on_operator r o t os out w =
    collapse_term (λ n. on_operator list_sink n (mul_char o)) _ os
      (λ n out. on_operator-IsWeak (mul_char-IsOperator o) n os out w)
      (λ n m out.
        on_operator-strong (mul_char-IsOperator o) n _ os out 2 (mul_char-IsOperator m).has_prio
          (omega arith))
      t r out

-- Behind a sum `+` and `-` write it, and wait.
pub waiting-on_operator :
    (r : ℕ) (o : AddOp) (e : Expr) (os out : List ℕ)
    → IsWeak 1 os
    → on_operator list_sink (suc (suc (suc r))) (add_char o) (waiting e (os, out))
      ≡ value (add_char o ∷ os, postfix e out)
waiting-on_operator r o e os out w =
    collapse (λ n. on_operator list_sink n (add_char o)) _ os
      (λ n out. on_operator-IsWeak op n os out w)
      (λ n m out. on_operator-strong op n _ os out 2 (mul_char-IsOperator m).has_prio (omega arith))
      (λ n p out. on_operator-strong op n _ os out 1 (add_char-IsOperator p).has_prio (omega arith))
      (λ n m p out.
        on_operator-strong op n _ _ out 2 (mul_char-IsOperator m).has_prio (omega arith))
      e r out
  where
    op : IsOperator (add_char o) 1
    op = add_char-IsOperator o

-- At `)` the group is written.
pub waiting-on_close :
    (r : ℕ) (e : Expr) (os out : List ℕ)
    → on_operator list_sink (suc (suc (suc r))) b')' (waiting e (b'(' ∷ os, out))
      ≡ value (os, postfix e out)
waiting-on_close r e os out =
    collapse (λ n. on_operator list_sink n b')') _ (b'(' ∷ os) (λ n out. on_close-open n os out)
      (λ n m out. on_close-strong n _ _ os out (mul_char-IsOperator m).no_open)
      (λ n p out. on_close-strong n _ _ os out (add_char-IsOperator p).no_open)
      (λ n m p out. on_close-strong n _ _ _ out (mul_char-IsOperator m).no_open) e r out

-- At the end of the text everything is written.
pub waiting-flush :
    (r : ℕ) (e : Expr)
    → flush_loop list_sink (suc (suc (suc r))) (waiting e ([], [])) ≡ value ([], postfix e [])
unfolding flush_loop
waiting-flush r e =
    collapse (flush_loop list_sink) (λ out. value ([], out)) [] (λ n out. refl) (λ n m out. refl)
      (λ n p out. refl) (λ n m p out. refl) e r []
