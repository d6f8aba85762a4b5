-- ===== src/Postfix/Evaluate/Order.antt =====
-- The loop of `cal_bstr` in 224.c over the postfix text of an expression, on a list of numbers.
use good_command.Common.{
  ℕ, suc, ◌+◌, ◌-◌, ◌≤◌, ◌≡◌, refl, ◌∙◌, ap, sym, true, List, [], ◌∷◌, ◌++◌, append-nil, arith,
  length, length-append, Exec, value, ◌>>=◌, >>=_assoc, >>=_congr,
}
use good_command.Common.Int.{ℤ, pos}
use good_command.Clib.Int32
use good_command.Clib.Scan.Decimal.{decimal}
use good_command.Clib.Print.{print_int}
use good_command.Expression.{
  AddOp, plus, minus, MulOp, times, over, Factor, number, group, Term, factor, scale, Expr, term,
  offset, add_char, mul_char, apply_add, apply_mul, eval_factor, eval_term, eval,
}
use good_command.Expression.Rounds.{more, more-add}
use good_command.Postfix.Order.{emit, postfix_factor, postfix_term, postfix}
use good_command.Postfix.Translate.{is_legal_op}
use good_command.Postfix.Translate.Lists.{mul_char-IsOperator, add_char-IsOperator}
use good_command.Postfix.Evaluate.{compute, apply_operator, cal_loop, evaluate}
use good_command.Postfix.Evaluate.Bounded.{list_pop, list_numbers}
use good_command.Postfix.Evaluate.Tokens.{
  loop, Evaluates, Evaluates-token, operator-token, number-token, some_digit,
}

-- The value on top of what is there.
abbrev push_of : Exec ℤ → List ℤ → Exec (List ℤ)
push_of m ns = m >>= λ v. value (v ∷ ns)

Evaluates-eq :
    (out : List ℕ) (m m' : List ℤ → Exec (List ℤ))
    → Evaluates out m
    → ((ns : List ℤ) → m ns ≡ m' ns)
    → Evaluates out m'
Evaluates-eq out m m' before same = record {
  rounds = before.rounds;
  few = before.few;
  reads = λ k rest ns. before.reads k rest ns ∙ ap (λ r. r >>= loop k rest) (same ns);
}

apply-mul :
    (op : MulOp) (a b : ℤ) (ns : List ℤ)
    → apply_operator list_numbers (mul_char op) (b ∷ a ∷ ns) ≡ push_of (apply_mul op a b) ns
unfolding apply_operator compute apply_mul
apply-mul times a b ns = rw (Int32.mul_comm a b) refl
apply-mul over a b ns = refl

apply-add :
    (op : AddOp) (a b : ℤ) (ns : List ℤ)
    → apply_operator list_numbers (add_char op) (b ∷ a ∷ ns) ≡ push_of (apply_add op a b) ns
unfolding apply_operator compute apply_add
apply-add plus a b ns = rw (Int32.add_comm a b) refl
apply-add minus a b ns = refl

push_of-bind :
    (p q : Exec ℤ) (f : ℤ → ℤ → Exec ℤ) (ns : List ℤ)
    → (p >>= λ a. q >>= λ b. push_of (f a b) ns) ≡ push_of (p >>= λ a. q >>= λ b. f a b) ns
push_of-bind p q f ns = simp >>=_assoc refl

-- Two operands, then their operator.
Evaluates-operator :
    (c : ℕ) (out : List ℕ) (m : List ℤ → Exec (List ℤ)) (p q : Exec ℤ) (f : ℤ → ℤ → Exec ℤ)
    → is_legal_op c ≡ true
    → ((a b : ℤ) (ns : List ℤ) → apply_operator list_numbers c (b ∷ a ∷ ns) ≡ push_of (f a b) ns)
    → Evaluates out (λ ns. (m ns >>= push_of p) >>= push_of q)
    → Evaluates (emit c out) (λ ns. m ns >>= push_of (p >>= λ a. q >>= λ b. f a b))
Evaluates-operator c out m p q f legal applies operands =
    Evaluates-eq (emit c out) _ _
      (Evaluates-token out (c ∷ b' ' ∷ []) _ (apply_operator list_numbers c) operands (omega arith)
        λ k rest ns. operator-token c k rest ns legal)
      λ ns. simp >>=_assoc (
        >>=_congr (m ns)
          λ ms. >>=_congr p (λ a. >>=_congr q λ b. applies a b ms) ∙ push_of-bind p q f ms)

mutual
  unfolding postfix eval

  Evaluates-factor :
      (f : Factor) (out : List ℕ) (m : List ℤ → Exec (List ℤ))
      → Evaluates out m
      → Evaluates (postfix_factor f out) (λ ns. m ns >>= push_of (eval_factor f))
  Evaluates-factor (number n l) out m before =
      let v = decimal 0 (l.first ∷ l.others) in
      let w = print_int (pos v) ++ b' ' ∷ [] in
      Evaluates-token out w m (λ ns. value (pos v ∷ ns)) before
        (omega (arith, length-append (print_int (pos v)) (b' ' ∷ []), some_digit v l.small))
        λ k rest ns. number-token v k rest ns l.small
  Evaluates-factor (group n e k) out m before = Evaluates-expr e out m before

  Evaluates-term :
      (t : Term) (out : List ℕ) (m : List ℤ → Exec (List ℤ))
      → Evaluates out m
      → Evaluates (postfix_term t out) (λ ns. m ns >>= push_of (eval_term t))
  Evaluates-term (factor f) out m before = Evaluates-factor f out m before
  Evaluates-term (scale t n op f) out m before =
      Evaluates-operator (mul_char op) _ m (eval_term t) (eval_factor f) (apply_mul op)
        (mul_char-IsOperator op).legal (apply-mul op)
        (Evaluates-factor f _ _ (Evaluates-term t out m before))

  Evaluates-expr :
      (e : Expr) (out : List ℕ) (m : List ℤ → Exec (List ℤ))
      → Evaluates out m
      → Evaluates (postfix e out) (λ ns. m ns >>= push_of (eval e))
  Evaluates-expr (term t) out m before = Evaluates-term t out m before
  Evaluates-expr (offset e n op t) out m before =
      Evaluates-operator (add_char op) _ m (eval e) (eval_term t) (apply_add op)
        (add_char-IsOperator op).legal (apply-add op)
        (Evaluates-term t _ _ (Evaluates-expr e out m before))

Evaluates-nil : Evaluates [] value
unfolding more
Evaluates-nil = record { rounds = 0; few = omega arith; reads = λ k rest ns. refl }

-- With a round for each byte and one more the loop reads the whole text, and one number is left.
pub evaluate-postfix :
    (e : Expr) (fuel : ℕ)
    → length (postfix e []) + 1 ≤ fuel
    → evaluate list_numbers fuel (postfix e []) [] ≡ (eval e >>= λ v. value (v, []))
unfolding evaluate cal_loop
evaluate-postfix e fuel h =
    let all = Evaluates-expr e [] value Evaluates-nil in
    let k = fuel - (all.rounds + 1) in
    let exact : fuel ≡ more all.rounds (suc k) =
      omega (arith, more-add all.rounds (suc k), all.few) in
    rw exact (
      ap (λ t. loop (more all.rounds (suc k)) t [] >>= list_pop) (sym (append-nil (postfix e [])))
      ∙ ap (λ r. r >>= list_pop) (all.reads (suc k) [] [])
      ∙ simp >>=_assoc refl)
