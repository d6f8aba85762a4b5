-- ===== src/Expression/Samples.antt =====
-- Expressions for the tests of the calculators.
use good_command.Common.{ℕ, ◌<◌, [], ◌∷◌, arith}
use good_command.Expression.{
  Literal, Factor, number, group, factor, scale, Expr, term, offset, plus, minus, times, over,
}

abbrev pub literal : (d : ℕ) → d < 10 → Literal
literal d h = record { first = d; others = []; valid = (h, tt); small = omega arith }

abbrev pub twelve : Literal
twelve = record { first = 1; others = 2 ∷ []; valid = omega arith; small = omega arith }

abbrev pub two : Literal
two = record { first = 0; others = 2 ∷ []; valid = omega arith; small = omega arith }

abbrev pub num : (d : ℕ) → d < 10 → Factor
num d h = number 0 (literal d h)

abbrev pub inner : Expr
inner =
    offset (term (factor (number 1 (literal 4 (omega arith))))) 0 plus
      (factor (num 5 (omega arith)))

-- Its text is ` 12-3*( 4+5)/02`.
abbrev pub sample : Expr
sample =
    offset (term (factor (number 1 twelve))) 0 minus
      (scale (scale (factor (num 3 (omega arith))) 0 times (group 0 inner 0)) 0 over (number 0 two))
