-- ===== src/DoubleStack/Machine/Reduce.antt =====
-- What an operator of the text does to the operators that wait on the stack, on unbounded stacks.
use good_command.Common.{
  ℕ, suc, ◌≤◌, ◌<◌, ◌≡◌, refl, true, false, List, [], ◌∷◌, arith, leb, ◌==◌, value, ◌>>=◌,
  >>=_assoc,
}
use good_command.Common.Int.{ℤ, pos, ◌==ℤ◌}
use good_command.DoubleStack.Stack.Refine.{list_stack}
use good_command.DoubleStack.Machine.{
  is_legal_op, prio, do_one_cal, pop_and_cal, close_loop, reduce_loop, flush_loop, on_operator,
  finish,
}

-- The byte `c` is an operator of priority `p`, and no parenthesis.
pub record IsOperator (c p : ℕ) : Type 0 where
  pub legal : is_legal_op c ≡ true
  pub no_open : (c == b'(') ≡ false
  pub no_close : (c == b')') ≡ false
  pub has_prio : prio (pos c) ≡ value p

-- The operator on the top, if any, binds less tightly than `p`.
abbrev pub Weak : ℕ → List ℤ → Type 0
Weak p [] = Unit {0}
Weak p (o ∷ os) = (q : ℕ) × (prio o ≡ value q) × (q < p)

module _ {c p : ℕ} (op : IsOperator c p) (r : ℕ) where
  -- An operator that binds more tightly than the one on the top waits above it.
  pub on_operator-Weak :
      (os ns : List ℤ)
      → Weak p os
      → on_operator list_stack (suc r) c (os, ns) ≡ value (pos c ∷ os, ns)
  unfolding on_operator reduce_loop
  on_operator-Weak [] ns w = refl
  on_operator-Weak (o ∷ os) ns (q, e, lt) =
      let weaker : leb p q ≡ false = ground arith in
      rw (op.no_open, op.no_close, op.has_prio, e) (rw weaker refl)

  -- An operator on the top that binds at least as tightly is applied first.
  pub on_operator-strong :
      (o a b : ℤ) (os ns : List ℤ) (q : ℕ)
      → prio o ≡ value q
      → p ≤ q
      → on_operator list_stack (suc r) c (o ∷ os, b ∷ a ∷ ns)
        ≡ (do_one_cal o b a >>= λ v. on_operator list_stack r c (os, v ∷ ns))
  unfolding on_operator reduce_loop pop_and_cal
  on_operator-strong o a b [] ns q e le =
      let tight : leb p q ≡ true = ground arith in
      rw (op.no_open, op.no_close, op.has_prio, e) (rw tight (simp >>=_assoc))
  on_operator-strong o a b (o' ∷ os) ns q e le =
      let tight : leb p q ≡ true = ground arith in
      rw (op.no_open, op.no_close, op.has_prio, e) (rw tight (simp >>=_assoc))

pub on_close-open :
    (r : ℕ) (os ns : List ℤ)
    → on_operator list_stack (suc r) b')' (pos b'(' ∷ os, ns) ≡ value (os, ns)
unfolding on_operator close_loop
on_close-open r os ns = refl

-- At `)` an operator above the open parenthesis is applied.
pub on_close-strong :
    (r : ℕ) (o o' a b : ℤ) (os ns : List ℤ)
    → (o ==ℤ pos b'(') ≡ false
    → on_operator list_stack (suc r) b')' (o ∷ o' ∷ os, b ∷ a ∷ ns)
      ≡ (do_one_cal o b a >>= λ v. on_operator list_stack r b')' (o' ∷ os, v ∷ ns))
unfolding on_operator close_loop pop_and_cal
on_close-strong r o o' a b os ns e = rw e (simp >>=_assoc)

pub finish-nil : (r : ℕ) (v : ℤ) → finish list_stack (suc r) ([], v ∷ []) ≡ value v
unfolding finish flush_loop
finish-nil r v = refl

pub finish-cons :
    (r : ℕ) (o a b : ℤ) (os ns : List ℤ)
    → finish list_stack (suc r) (o ∷ os, b ∷ a ∷ ns)
      ≡ (do_one_cal o b a >>= λ v. finish list_stack r (os, v ∷ ns))
unfolding finish flush_loop pop_and_cal
finish-cons r o a b os ns = simp >>=_assoc

-- An open parenthesis waits above whatever stands on the stack.
pub on_open :
    (r : ℕ) (os ns : List ℤ) → on_operator list_stack r b'(' (os, ns) ≡ value (pos b'(' ∷ os, ns)
unfolding on_operator
on_open r [] ns = refl
on_open r (o ∷ os) ns = refl

pub open-Weak : (os : List ℤ) → Weak 1 (pos b'(' ∷ os)
unfolding prio
open-Weak os = (0, refl, omega arith)
