-- ===== src/Expression/Rounds.antt =====
-- The rounds that a loop over the text of an expression takes, one for each token and each blank: never
-- more than the text has bytes. And where a numeral in such a text ends.
use good_command.Common.{ℕ, zero, suc, ◌+◌, ◌≤◌, ◌≡◌, refl, false, List, ◌∷◌, arith, length}
use good_command.Clib.Scan.{is_digit}
use good_command.Clib.Scan.Decimal.{Stops, numeral, length-numeral}
use good_command.Expression.{
  Factor, number, group, Term, factor, scale, Expr, term, offset, AddOp, plus, minus, MulOp, times,
  over, add_char, mul_char, blanks, text_factor, text_term, text,
}

-- `k` rounds after `n` others.
unfoldable pub more : ℕ → ℕ → ℕ
more zero k = k
more (suc n) k = suc (more n k)

-- The rounds that read a text, in front of `k` others.
unfoldable mutual
  pub steps_factor : Factor → ℕ → ℕ
  steps_factor (number n l) k = more n (suc k)
  steps_factor (group n e m) k = more n (suc (steps e (more m (suc k))))

  pub steps_term : Term → ℕ → ℕ
  steps_term (factor f) k = steps_factor f k
  steps_term (scale t n op f) k = steps_term t (more n (suc (steps_factor f k)))

  pub steps : Expr → ℕ → ℕ
  steps (term t) k = steps_term t k
  steps (offset e n op t) k = steps e (more n (suc (steps_term t k)))

pub more-add : (n k : ℕ) → more n k ≡ n + k
unfolding more
more-add zero k = omega arith
more-add (suc n) k = omega (arith, more-add n k)

pub length-blanks : (n : ℕ) (s : List ℕ) → length (blanks n s) ≡ n + length s
length-blanks zero s = omega arith
length-blanks (suc n) s = omega (arith, length-blanks n s)

-- The rounds that follow are a summand.
mutual
  unfolding steps

  pub add_factor : (f : Factor) (k : ℕ) → steps_factor f k ≡ steps_factor f 0 + k
  add_factor (number n l) k = omega (arith, more-add)
  add_factor (group n e m) k =
      omega (arith, more-add, add_expr e (more m (suc k)), add_expr e (more m (suc 0)))

  add_term : (t : Term) (k : ℕ) → steps_term t k ≡ steps_term t 0 + k
  add_term (factor f) k = add_factor f k
  add_term (scale t n op f) k = omega (
    arith,
    more-add,
    add_factor f k,
    add_term t (more n (suc (steps_factor f k))),
    add_term t (more n (suc (steps_factor f 0))),
  )

  add_expr : (e : Expr) (k : ℕ) → steps e k ≡ steps e 0 + k
  add_expr (term t) k = add_term t k
  add_expr (offset e n op t) k = omega (
    arith,
    more-add,
    add_term t k,
    add_expr e (more n (suc (steps_term t k))),
    add_expr e (more n (suc (steps_term t 0))),
  )

mutual
  unfolding steps text

  pub le_factor : (f : Factor) (s : List ℕ) → steps_factor f 0 + length s ≤ length (text_factor f s)
  le_factor (number n l) s =
      omega (
        arith,
        more-add,
        length-blanks n (numeral (l.first ∷ l.others) s),
        length-numeral l.others s,
      )
  le_factor (group n e m) s = omega (
    arith,
    more-add,
    add_expr e (more m (suc 0)),
    length-blanks n (b'(' ∷ text e (blanks m (b')' ∷ s))),
    length-blanks m (b')' ∷ s),
    le_expr e (blanks m (b')' ∷ s)),
  )

  le_term : (t : Term) (s : List ℕ) → steps_term t 0 + length s ≤ length (text_term t s)
  le_term (factor f) s = le_factor f s
  le_term (scale t n op f) s = omega (
    arith,
    more-add,
    add_term t (more n (suc (steps_factor f 0))),
    length-blanks n (mul_char op ∷ text_factor f s),
    le_factor f s,
    le_term t (blanks n (mul_char op ∷ text_factor f s)),
  )

  le_expr : (e : Expr) (s : List ℕ) → steps e 0 + length s ≤ length (text e s)
  le_expr (term t) s = le_term t s
  le_expr (offset e n op t) s = omega (
    arith,
    more-add,
    add_expr e (more n (suc (steps_term t 0))),
    length-blanks n (add_char op ∷ text_term t s),
    le_term t s,
    le_expr e (blanks n (add_char op ∷ text_term t s)),
  )

pub steps-add : (e : Expr) (k : ℕ) → steps e k ≡ steps e 0 + k
steps-add e k = add_expr e k

pub steps-le-length : (e : Expr) (s : List ℕ) → steps e 0 + length s ≤ length (text e s)
steps-le-length e s = le_expr e s

pub blanks-Stops : (n c : ℕ) (s : List ℕ) → is_digit c ≡ false → Stops (blanks n (c ∷ s))
unfolding is_digit
blanks-Stops zero c s h = h
blanks-Stops (suc n) c s h = refl

pub mul_char-Stops : (op : MulOp) → is_digit (mul_char op) ≡ false
unfolding is_digit
mul_char-Stops times = refl
mul_char-Stops over = refl

pub add_char-Stops : (op : AddOp) → is_digit (add_char op) ≡ false
unfolding is_digit
add_char-Stops plus = refl
add_char-Stops minus = refl

pub close_no_digit : is_digit b')' ≡ false
unfolding is_digit
close_no_digit = refl
