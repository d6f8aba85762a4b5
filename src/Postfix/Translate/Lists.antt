-- ===== src/Postfix/Translate/Lists.antt =====
-- `mtob` of 224.c over plain lists: the operators that wait, the last one first, and the text that
-- is written.
use good_command.Common.{
  ℕ, suc, ◌≤◌, ◌<◌, ◌≡◌, refl, true, false, List, [], ◌∷◌, arith, leb, ◌==◌, Exec, value, trap,
}
use good_command.Expression.{AddOp, plus, minus, MulOp, times, over, add_char, mul_char}
use good_command.Postfix.Order.{emit, emit_number}
use good_command.Postfix.Stack.Refine.{list_is_empty}
use good_command.Postfix.Translate.{is_legal_op, prio, Sink, close_loop, reduce_loop, on_operator}

abbrev pub list_top : List ℕ × List ℕ → Exec ℕ
list_top ([], out) = trap
list_top (o ∷ os, out) = value o

abbrev pub list_move : List ℕ × List ℕ → Exec (List ℕ × List ℕ)
list_move ([], out) = trap
list_move (o ∷ os, out) = value (os, emit o out)

abbrev pub list_discard : List ℕ × List ℕ → Exec (List ℕ × List ℕ)
list_discard ([], out) = trap
list_discard (o ∷ os, out) = value (os, out)

abbrev pub list_sink : Sink
list_sink = record {
  Carrier = List ℕ × List ℕ;
  has_none = λ st. list_is_empty st.0;
  top = list_top;
  push = λ c st. value (c ∷ st.0, st.1);
  move = list_move;
  discard = list_discard;
  number = λ v st. value (st.0, emit_number v st.1);
  flush_one = list_move;
}

-- The byte `c` is an operator of priority `p`, and no parenthesis.
pub record IsOperator (c p : ℕ) : Type 0 where
  pub legal : is_legal_op c ≡ true
  pub no_open : (c == b'(') ≡ false
  pub no_close : (c == b')') ≡ false
  pub has_prio : prio c ≡ value p

pub mul_char-IsOperator : (op : MulOp) → IsOperator (mul_char op) 2
unfolding is_legal_op prio
mul_char-IsOperator times = record {
  legal = refl;
  no_open = refl;
  no_close = refl;
  has_prio = refl;
}
mul_char-IsOperator over = record { legal = refl; no_open = refl; no_close = refl; has_prio = refl }

pub add_char-IsOperator : (op : AddOp) → IsOperator (add_char op) 1
unfolding is_legal_op prio
add_char-IsOperator plus = record { legal = refl; no_open = refl; no_close = refl; has_prio = refl }
add_char-IsOperator minus = record {
  legal = refl;
  no_open = refl;
  no_close = refl;
  has_prio = refl;
}

-- The operator on the top, if any, binds less tightly than `p`.
abbrev pub IsWeak : ℕ → List ℕ → Type 0
IsWeak p [] = Unit {0}
IsWeak p (o ∷ os) = (q : ℕ) × (prio o ≡ value q) × (q < p)

pub IsWeak-up : (os : List ℕ) → IsWeak 1 os → IsWeak 2 os
IsWeak-up [] w = tt
IsWeak-up (o ∷ os) (q, e, lt) = (q, e, omega arith)

module _ {c p : ℕ} (op : IsOperator c p) (r : ℕ) where
  -- An operator that binds more tightly than the one on the top waits above it.
  pub on_operator-IsWeak :
      (os out : List ℕ)
      → IsWeak p os
      → on_operator list_sink (suc r) c (os, out) ≡ value (c ∷ os, out)
  unfolding on_operator reduce_loop
  on_operator-IsWeak [] out w = refl
  on_operator-IsWeak (o ∷ os) out (q, e, lt) =
      let weaker : leb p q ≡ false = ground arith in
      rw (op.no_open, op.no_close, op.has_prio, e) (rw weaker refl)

  -- An operator on the top that binds at least as tightly is written first.
  pub on_operator-strong :
      (o : ℕ) (os out : List ℕ) (q : ℕ)
      → prio o ≡ value q
      → p ≤ q
      → on_operator list_sink (suc r) c (o ∷ os, out) ≡ on_operator list_sink r c (os, emit o out)
  unfolding on_operator reduce_loop
  on_operator-strong o [] out q e le =
      let tight : leb p q ≡ true = ground arith in
      rw (op.no_open, op.no_close, op.has_prio, e) (rw tight refl)
  on_operator-strong o (o' ∷ os) out q e le =
      let tight : leb p q ≡ true = ground arith in
      rw (op.no_open, op.no_close, op.has_prio, e) (rw tight refl)

pub on_close-open :
    (r : ℕ) (os out : List ℕ)
    → on_operator list_sink (suc r) b')' (b'(' ∷ os, out) ≡ value (os, out)
unfolding on_operator close_loop
on_close-open r os out = refl

-- At `)` an operator above the open parenthesis is written.
pub on_close-strong :
    (r : ℕ) (o o' : ℕ) (os out : List ℕ)
    → (o == b'(') ≡ false
    → on_operator list_sink (suc r) b')' (o ∷ o' ∷ os, out)
      ≡ on_operator list_sink r b')' (o' ∷ os, emit o out)
unfolding on_operator close_loop
on_close-strong r o o' os out e = rw e refl

-- An open parenthesis waits above whatever stands on the stack.
pub on_open :
    (r : ℕ) (os out : List ℕ) → on_operator list_sink r b'(' (os, out) ≡ value (b'(' ∷ os, out)
unfolding on_operator
on_open r [] out = refl
on_open r (o ∷ os) out = refl

pub open-IsWeak : (os : List ℕ) → IsWeak 1 (b'(' ∷ os)
unfolding prio
open-IsWeak os = (0, refl, omega arith)
