-- ===== src/DoubleStack/Hang.antt =====
-- Where the loops of double_stack_224.c never end: a byte that starts no token, and a closing
-- parenthesis with no open one.
use good_command.Common.{
  bind-value_inv, ℕ, zero, suc, ◌+◌, ◌≤◌, ◌≡◌, ◌≢◌, refl, sym, ◌∙◌, inl, inr, false, List, [], ◌∷◌,
  Option, none, some, arith, ◌==◌, Bool-cases, drop, match_option, Exec, value, no_fuel,
}
use mathlib.Core.Path.{subst}
use good_command.Common.Int.{ℤ, pos, ◌==ℤ◌}
use good_command.Clib.Scan.{is_digit, scan_int}
use good_command.Expression.{
  IsCompound, Term, factor, scale, Expr, term, offset, AddOp, plus, minus, MulOp, times, over,
  add_char, mul_char, eval_factor, eval_term, blanks, text, eval,
}
use good_command.DoubleStack.Stack.Refine.{list_stack, list_top, list_pop, list_is_empty}
use good_command.DoubleStack.Machine.{
  is_legal_op, Stacks, do_one_cal, pop_and_cal, close_loop, on_operator, calc_loop, run,
  calculate_within, finish,
}
use good_command.DoubleStack.Machine.Simulate.{calculate_within-unbounded}
use good_command.DoubleStack.Pending.{pending, pending_term}
use good_command.Expression.Rounds.{more, steps, blanks-Stops, more-add, steps-add}
use good_command.DoubleStack.Reading.{loop, loop-blanks, loop-expr}

-- The byte in front is no operator, no blank, and does not start a number.
pub record IsStuck (c : ℕ) (s : List ℕ) : Type 0 where
  pub no_op : is_legal_op c ≡ false
  pub no_blank : (c == b' ') ≡ false
  pub no_number : scan_int (c ∷ s) ≡ none

match_option_mono :
    {X A : Type 0} (o : Option X) {m m' : Exec A} {f f' : X → Exec A} {a : A}
    → (m ≡ value a → m' ≡ value a)
    → ((x : X) → f x ≡ value a → f' x ≡ value a)
    → match_option o m f ≡ value a
    → match_option o m' f' ≡ value a
match_option_mono none h k e = h e
match_option_mono (some x) h k e = k x e

module _ (rounds : ℕ) where
  -- A run that ends with a value ends with it for any more rounds of the main loop.
  calc_loop_mono :
      (f g : ℕ) (s : List ℕ) (st end : Stacks list_stack)
      → f ≤ g
      → calc_loop list_stack rounds f s st ≡ value end
      → calc_loop list_stack rounds g s st ≡ value end
  unfolding calc_loop
  calc_loop_mono zero g s st end le h = cc
  calc_loop_mono (suc f) zero s st end le h = absurd (omega arith)
  calc_loop_mono (suc f) (suc g) [] st end le h = h
  calc_loop_mono (suc f) (suc g) (c ∷ s) st end le h = elim (Bool-cases (is_legal_op c)) [
    | inl op ↦
        let (mid, first, rest) =
          bind-value_inv (on_operator list_stack rounds c st) (calc_loop list_stack rounds f s)
            (rw op at h) in
        rw (op, first) (calc_loop_mono f g s mid end (omega arith) rest)
    | inr no_op ↦ elim (Bool-cases (c == b' ')) [
      | inl blank ↦
          rw (no_op, blank) (calc_loop_mono f g s st end (omega arith) (rw (no_op, blank) at h))
      | inr no_blank ↦
          rw (no_op, no_blank)
            (match_option_mono (scan_int (c ∷ s)) (calc_loop_mono f g (c ∷ s) st end (omega arith))
              (λ v. calc_loop_mono f g (drop v.1 (c ∷ s)) (st.0, v.0 ∷ st.1) end (omega arith))
              (rw (no_op, no_blank) at h))
    ]
  ]

  pub stuck-no_fuel :
      (fuel c : ℕ) (s : List ℕ) (st : Stacks list_stack)
      → IsStuck c s
      → calc_loop list_stack rounds fuel (c ∷ s) st ≡ no_fuel
  unfolding calc_loop
  stuck-no_fuel zero c s st h = refl
  stuck-no_fuel (suc fuel) c s st h =
      rw (h.no_op, h.no_blank, h.no_number) (stuck-no_fuel fuel c s st h)

-- No open parenthesis among the operators.
abbrev pub NoOpen : List ℤ → Type 0
NoOpen [] = Unit {0}
NoOpen (o ∷ os) = ((o ==ℤ pos b'(') ≡ false) × NoOpen os

top-NoOpen : (os : List ℤ) → NoOpen os → (list_top os ==ℤ pos b'(') ≡ false
top-NoOpen [] h = refl
top-NoOpen (o ∷ os) h = h.0

pop-NoOpen : (os : List ℤ) → NoOpen os → NoOpen (list_pop os).1
pop-NoOpen [] h = tt
pop-NoOpen (o ∷ os) h = h.1

value-injective : {A : Type 0} {a b : A} → value a ≡ value b → a ≡ b
value-injective e = cc

pop_and_cal-NoOpen :
    (st end : Stacks list_stack)
    → NoOpen st.0
    → pop_and_cal list_stack st ≡ value end
    → NoOpen end.0
unfolding pop_and_cal
pop_and_cal-NoOpen st end h e =
    let (v, _, same) =
      bind-value_inv (do_one_cal (list_pop st.0).0 (list_pop st.1).0 (list_pop (list_pop st.1).1).0)
        _ e in
    subst (λ (m : Stacks list_stack). NoOpen m.0) (value-injective same) (pop-NoOpen st.0 h)

-- The loop that looks for an open parenthesis goes on below the bottom of the stack for ever.
pub close_loop-ne-value :
    (rounds : ℕ) (st end : Stacks list_stack)
    → NoOpen st.0
    → close_loop list_stack rounds st ≢ value end
unfolding close_loop
close_loop-ne-value zero st end h e = cc
close_loop-ne-value (suc rounds) st end h e =
    let (mid, first, rest) =
      bind-value_inv (pop_and_cal list_stack st) (close_loop list_stack rounds)
        (rw (top-NoOpen st.0 h) at e) in
    close_loop-ne-value rounds mid end (pop_and_cal-NoOpen st mid h first) rest

-- At least one operator waits, and none of those that do is an open parenthesis.
abbrev pub Waiting : List ℤ → Type 0
Waiting os = NoOpen os × (list_is_empty os ≡ false)

mul_char-NoOpen : (m : MulOp) → (pos (mul_char m) ==ℤ pos b'(') ≡ false
mul_char-NoOpen times = refl
mul_char-NoOpen over = refl

add_char-NoOpen : (p : AddOp) → (pos (add_char p) ==ℤ pos b'(') ≡ false
add_char-NoOpen plus = refl
add_char-NoOpen minus = refl

pending_term-NoOpen :
    (t : Term) (os ns : List ℤ) (end : Stacks list_stack)
    → NoOpen os
    → pending_term t (os, ns) ≡ value end
    → NoOpen end.0 × (list_is_empty os ≡ false → list_is_empty end.0 ≡ false)
unfolding pending_term
pending_term-NoOpen (factor f) os ns end h e =
    let (a, _, same) = bind-value_inv (eval_factor f) _ e in
    subst
      (λ (m : Stacks list_stack).
        NoOpen m.0 × (list_is_empty os ≡ false → list_is_empty m.0 ≡ false))
      (value-injective same) (h, λ p. p)
pending_term-NoOpen (scale t n m f) os ns end h e =
    let (a, _, e') = bind-value_inv (eval_term t) _ e in
    let (b, _, same) = bind-value_inv (eval_factor f) _ e' in
    subst
      (λ (m : Stacks list_stack).
        NoOpen m.0 × (list_is_empty os ≡ false → list_is_empty m.0 ≡ false))
      (value-injective same) ((mul_char-NoOpen m, h), λ p. refl)

pub pending-Waiting :
    (e : Expr) (end : Stacks list_stack)
    → IsCompound e
    → pending e ([], []) ≡ value end
    → Waiting end.0
unfolding pending pending_term
pending-Waiting (term (factor f)) end c e = absurd c
pending-Waiting (term (scale t n m f)) end c e =
    let (a, _, e') = bind-value_inv (eval_term t) _ e in
    let (b, _, same) = bind-value_inv (eval_factor f) _ e' in
    subst (λ (m : Stacks list_stack). Waiting m.0) (value-injective same)
      ((mul_char-NoOpen m, tt), refl)
pending-Waiting (offset l n p t) end c e =
    let (a, _, e') = bind-value_inv (eval l) _ e in
    let (none_open, nonempty) =
      pending_term-NoOpen t (pos (add_char p) ∷ []) (a ∷ []) end (add_char-NoOpen p, tt) e' in
    (none_open, nonempty refl)

module _ (r : ℕ) where
  -- A run with a value comes past the text of an expression to the byte behind it.
  pub reach :
      (e : Expr) (n c : ℕ) (s : List ℕ) (v : ℤ)
      → is_digit c ≡ false
      → calculate_within (r + 3) (text e (blanks n (c ∷ s))) ≡ value v
      → (st end : Stacks list_stack) × (pending e ([], []) ≡ value st)
        × (loop r (suc (suc (suc (suc r)))) (c ∷ s) st ≡ value end)
  unfolding run
  reach e n c s v no_digit h =
      let three : r + 3 ≡ suc (suc (suc r)) = omega arith in
      let S = text e (blanks n (c ∷ s)) in
      let R = suc (suc (suc r)) in
      let listed : run list_stack R S ([], []) ≡ value v =
        rw (calculate_within-unbounded (r + 3) S, three) at h in
      let (end, all, _) = bind-value_inv (loop r R S ([], [])) (finish list_stack R) listed in
      let longer =
        calc_loop_mono R R (steps e (more n (suc R))) S ([], []) end
          (omega (arith, steps-add e (more n (suc R)), more-add n (suc R))) all in
      let (st, first, rest) =
        bind-value_inv (pending e ([], [])) (loop r (more n (suc R)) (blanks n (c ∷ s))) (
          sym (
            loop-expr r e (more n (suc R)) (blanks n (c ∷ s)) [] [] (blanks-Stops n c s no_digit)
              tt)
          ∙ longer) in
      (st, end, first, sym (loop-blanks R n (suc R) (c ∷ s) st) ∙ rest)
