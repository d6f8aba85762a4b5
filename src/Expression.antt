-- ===== src/Expression.antt =====
-- The language of the two calculators, apart from any program: expressions over `+ - * /` and
-- parentheses, their texts with blanks anywhere between two tokens, and their values in the
-- arithmetic of `int`.
use good_command.Common.{ℕ, zero, suc, ◌^◌, ◌<◌, List, ◌∷◌, Exec, value, ◌>>=◌}
use good_command.Common.Int.{ℤ, pos}
use good_command.Clib.Int32
use good_command.Clib.Scan.Decimal.{AllDigits, decimal, numeral}
pub mod Rounds
pub mod Literals
pub mod Samples

-- A numeral of at least one digit that fits `int`; leading zeros are allowed.
pub record Literal : Type 0 where
  pub first : ℕ
  pub others : List ℕ
  pub valid : AllDigits (first ∷ others)
  pub small : decimal 0 (first ∷ others) < 2 ^ 31

pub data AddOp : Type 0 where
  plus minus : AddOp

pub data MulOp : Type 0 where
  times over : MulOp

-- The numbers count the blanks in front of a token, and those in front of a closing parenthesis.
-- The operators associate to the left, and those of `Term` bind more tightly.
mutual
  pub data Factor : Type 0 where
    number : ℕ → Literal → Factor
    group : ℕ → Expr → ℕ → Factor

  pub data Term : Type 0 where
    factor : Factor → Term
    scale : Term → ℕ → MulOp → Factor → Term

  pub data Expr : Type 0 where
    term : Term → Expr
    offset : Expr → ℕ → AddOp → Term → Expr

-- The expression has an operator outside all parentheses.
abbrev pub IsCompound : Expr → Type 0
IsCompound (term (factor f)) = ⊥
IsCompound _ = Unit {0}

abbrev pub add_char : AddOp → ℕ
add_char plus = b'+'
add_char minus = b'-'

abbrev pub mul_char : MulOp → ℕ
mul_char times = b'*'
mul_char over = b'/'

abbrev pub blanks : ℕ → List ℕ → List ℕ
blanks zero rest = rest
blanks (suc n) rest = b' ' ∷ blanks n rest

-- The text in front of `rest`.
unfoldable mutual
  pub text_factor : Factor → List ℕ → List ℕ
  text_factor (number n l) rest = blanks n (numeral (l.first ∷ l.others) rest)
  text_factor (group n e m) rest = blanks n (b'(' ∷ text e (blanks m (b')' ∷ rest)))

  pub text_term : Term → List ℕ → List ℕ
  text_term (factor f) rest = text_factor f rest
  text_term (scale t n op f) rest = text_term t (blanks n (mul_char op ∷ text_factor f rest))

  pub text : Expr → List ℕ → List ℕ
  text (term t) rest = text_term t rest
  text (offset e n op t) rest = text e (blanks n (add_char op ∷ text_term t rest))

unfoldable pub apply_add : AddOp → ℤ → ℤ → Exec ℤ
apply_add plus a b = value (Int32.add a b)
apply_add minus a b = value (Int32.sub a b)

unfoldable pub apply_mul : MulOp → ℤ → ℤ → Exec ℤ
apply_mul times a b = value (Int32.mul a b)
apply_mul over a b = Int32.div a b

-- The value, or a trap where a division in the expression traps.
unfoldable mutual
  pub eval_factor : Factor → Exec ℤ
  eval_factor (number n l) = value (pos (decimal 0 (l.first ∷ l.others)))
  eval_factor (group n e m) = eval e

  pub eval_term : Term → Exec ℤ
  eval_term (factor f) = eval_factor f
  eval_term (scale t n op f) = do a ← eval_term t; b ← eval_factor f; apply_mul op a b

  pub eval : Expr → Exec ℤ
  eval (term t) = eval_term t
  eval (offset e n op t) = do a ← eval e; b ← eval_term t; apply_add op a b
