-- ===== src/DoubleStack/Pending.antt =====
-- The operators and numbers that wait on the stacks when the text of an expression has been read.
use good_command.Common.{
  ℕ, suc, ◌≡◌, refl, ◌∙◌, false, List, [], ◌∷◌, arith, Exec, value, ◌>>=◌, >>=_assoc, >>=_congr,
}
use good_command.Common.Int.{ℤ, pos, ◌==ℤ◌}
use good_command.Clib.Int32
use good_command.Expression.{
  AddOp, plus, minus, MulOp, times, over, Term, factor, scale, Expr, term, offset, add_char,
  mul_char, apply_add, apply_mul, eval_factor, eval_term, eval,
}
use good_command.DoubleStack.Stack.Refine.{list_stack}
use good_command.DoubleStack.Machine.{is_legal_op, prio, do_one_cal, Stacks, on_operator, finish}
use good_command.DoubleStack.Machine.Reduce.{
  IsOperator, Weak, on_operator-Weak, on_operator-strong, on_close-open, on_close-strong,
  finish-nil, finish-cons,
}

-- A product leaves its last operator and both operands; what stands left of it is a value.
unfoldable pub pending_term : Term → Stacks list_stack → Exec (Stacks list_stack)
pending_term (factor f) (os, ns) = eval_factor f >>= λ a. value (os, a ∷ ns)
pending_term (scale t n op f) (os, ns) = do
  a ← eval_term t
  b ← eval_factor f
  value (pos (mul_char op) ∷ os, b ∷ a ∷ ns)

unfoldable pub pending : Expr → Stacks list_stack → Exec (Stacks list_stack)
pending (term t) st = pending_term t st
pending (offset e n op t) (os, ns) = eval e >>= λ a. pending_term t (pos (add_char op) ∷ os, a ∷ ns)

pub mul_char-IsOperator : (op : MulOp) → IsOperator (mul_char op) 2
unfolding is_legal_op prio
mul_char-IsOperator times = record {
  legal = refl;
  no_open = refl;
  no_close = refl;
  has_prio = refl;
}
mul_char-IsOperator over = record { legal = refl; no_open = refl; no_close = refl; has_prio = refl }

pub add_char-IsOperator : (op : AddOp) → IsOperator (add_char op) 1
unfolding is_legal_op prio
add_char-IsOperator plus = record { legal = refl; no_open = refl; no_close = refl; has_prio = refl }
add_char-IsOperator minus = record {
  legal = refl;
  no_open = refl;
  no_close = refl;
  has_prio = refl;
}

-- The right operand is popped first.
do_one_cal-mul : (op : MulOp) (a b : ℤ) → do_one_cal (pos (mul_char op)) b a ≡ apply_mul op a b
unfolding do_one_cal apply_mul
do_one_cal-mul times a b = rw (Int32.mul_comm a b) refl
do_one_cal-mul over a b = refl

do_one_cal-add : (op : AddOp) (a b : ℤ) → do_one_cal (pos (add_char op)) b a ≡ apply_add op a b
unfolding do_one_cal apply_add
do_one_cal-add plus a b = rw (Int32.add_comm a b) refl
do_one_cal-add minus a b = refl

mul_not_open : (op : MulOp) → (pos (mul_char op) ==ℤ pos b'(') ≡ false
mul_not_open times = refl
mul_not_open over = refl

add_not_open : (op : AddOp) → (pos (add_char op) ==ℤ pos b'(') ≡ false
add_not_open plus = refl
add_not_open minus = refl

-- A loop `K` over the stacks, told apart by the rounds it has left, that applies what waits above
-- `os` and is `done` at the value of the whole.
module _ {ℓ} {X : Type ℓ} (K : ℕ → Stacks list_stack → Exec X) (done : ℤ → Exec X) (os ns : List ℤ)
    (stops : (r : ℕ) (v : ℤ) → K (suc r) (os, v ∷ ns) ≡ done v)
    (applies_mul : (r : ℕ) (m : MulOp) (a b : ℤ)
      → K (suc r) (pos (mul_char m) ∷ os, b ∷ a ∷ ns)
        ≡ (apply_mul m a b >>= λ v. K r (os, v ∷ ns))) where
  collapse_term :
      (t : Term) (r : ℕ) → (pending_term t (os, ns) >>= K (suc (suc r))) ≡ (eval_term t >>= done)
  unfolding pending_term eval_term
  collapse_term (factor f) r = simp >>=_assoc (>>=_congr (eval_factor f) λ a. stops (suc r) a)
  collapse_term (scale t n m f) r = simp >>=_assoc (
      >>=_congr (eval_term t) λ a.
        >>=_congr (eval_factor f)
          λ b. applies_mul (suc r) m a b ∙ >>=_congr (apply_mul m a b) λ v. stops r v)

  module _
      (applies_add : (r : ℕ) (p : AddOp) (a b : ℤ)
        → K (suc r) (pos (add_char p) ∷ os, b ∷ a ∷ ns)
          ≡ (apply_add p a b >>= λ v. K r (os, v ∷ ns)))
      (applies_above : (r : ℕ) (m : MulOp) (p : AddOp) (a b c : ℤ)
        → K (suc r) (pos (mul_char m) ∷ pos (add_char p) ∷ os, c ∷ b ∷ a ∷ ns)
          ≡ (apply_mul m b c >>= λ v. K r (pos (add_char p) ∷ os, v ∷ a ∷ ns))) where
    settle :
        (r : ℕ) (p : AddOp) (a b : ℤ)
        → K (suc (suc r)) (pos (add_char p) ∷ os, b ∷ a ∷ ns) ≡ (apply_add p a b >>= done)
    settle r p a b = applies_add (suc r) p a b ∙ >>=_congr (apply_add p a b) λ v. stops r v

    collapse :
        (e : Expr) (r : ℕ) → (pending e (os, ns) >>= K (suc (suc (suc r)))) ≡ (eval e >>= done)
    unfolding pending pending_term eval eval_term
    collapse (term t) r = collapse_term t (suc r)
    collapse (offset e n p (factor f)) r =
        simp >>=_assoc (>>=_congr (eval e) λ a. >>=_congr (eval_factor f) λ b. settle (suc r) p a b)
    collapse (offset e n p (scale t k m f)) r = simp >>=_assoc (
        >>=_congr (eval e) λ a. >>=_congr (eval_term t) λ b. >>=_congr (eval_factor f) λ c.
          applies_above (suc (suc r)) m p a b c ∙ >>=_congr (apply_mul m b c) λ v. settle r p a v)

-- Behind a product `*` and `/` find its value, and wait on top.
pub pending_term-on_operator :
    (r : ℕ) (o : MulOp) (t : Term) (os ns : List ℤ)
    → Weak 2 os
    → (pending_term t (os, ns) >>= on_operator list_stack (suc (suc r)) (mul_char o))
      ≡ (eval_term t >>= λ a. value (pos (mul_char o) ∷ os, a ∷ ns))
pending_term-on_operator r o t os ns w =
    collapse_term (λ n. on_operator list_stack n (mul_char o)) _ os ns
      (λ n v. on_operator-Weak op n os (v ∷ ns) w)
      (λ n m a b.
        on_operator-strong op n _ a b os ns 2 (mul_char-IsOperator m).has_prio (omega arith)
        ∙ rw (do_one_cal-mul m a b) refl)
      t r
  where
    op : IsOperator (mul_char o) 2
    op = mul_char-IsOperator o

-- Behind a sum `+` and `-` find its value, and wait on top.
pub pending-on_operator :
    (r : ℕ) (o : AddOp) (e : Expr) (os ns : List ℤ)
    → Weak 1 os
    → (pending e (os, ns) >>= on_operator list_stack (suc (suc (suc r))) (add_char o))
      ≡ (eval e >>= λ a. value (pos (add_char o) ∷ os, a ∷ ns))
pending-on_operator r o e os ns w =
    collapse (λ n. on_operator list_stack n (add_char o)) _ os ns
      (λ n v. on_operator-Weak op n os (v ∷ ns) w)
      (λ n m a b.
        on_operator-strong op n _ a b os ns 2 (mul_char-IsOperator m).has_prio (omega arith)
        ∙ rw (do_one_cal-mul m a b) refl)
      (λ n p a b.
        on_operator-strong op n _ a b os ns 1 (add_char-IsOperator p).has_prio (omega arith)
        ∙ rw (do_one_cal-add p a b) refl)
      (λ n m p a b c.
        on_operator-strong op n _ b c _ (a ∷ ns) 2 (mul_char-IsOperator m).has_prio (omega arith)
        ∙ rw (do_one_cal-mul m b c) refl)
      e r
  where
    op : IsOperator (add_char o) 1
    op = add_char-IsOperator o

-- At `)` the value of the group replaces it.
pub pending-on_close :
    (r : ℕ) (e : Expr) (os ns : List ℤ)
    → (pending e (pos b'(' ∷ os, ns) >>= on_operator list_stack (suc (suc (suc r))) b')')
      ≡ (eval e >>= λ a. value (os, a ∷ ns))
pending-on_close r e os ns =
    collapse (λ n. on_operator list_stack n b')') _ (pos b'(' ∷ os) ns
      (λ n v. on_close-open n os (v ∷ ns))
      (λ n m a b. on_close-strong n _ _ a b os ns (mul_not_open m) ∙ rw (do_one_cal-mul m a b) refl)
      (λ n p a b. on_close-strong n _ _ a b os ns (add_not_open p) ∙ rw (do_one_cal-add p a b) refl)
      (λ n m p a b c.
        on_close-strong n _ _ b c _ (a ∷ ns) (mul_not_open m) ∙ rw (do_one_cal-mul m b c) refl)
      e r

-- At the end of the text the value is the result.
pub pending-finish :
    (r : ℕ) (e : Expr)
    → (pending e ([], []) >>= finish list_stack (suc (suc (suc r)))) ≡ (eval e >>= value)
pending-finish r e =
    collapse (finish list_stack) value [] [] finish-nil
      (λ n m a b. finish-cons n _ a b [] [] ∙ rw (do_one_cal-mul m a b) refl)
      (λ n p a b. finish-cons n _ a b [] [] ∙ rw (do_one_cal-add p a b) refl)
      (λ n m p a b c. finish-cons n _ b c _ (a ∷ []) ∙ rw (do_one_cal-mul m b c) refl) e r
