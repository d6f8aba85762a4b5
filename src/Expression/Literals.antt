-- ===== src/Expression/Literals.antt =====
-- A loop that reads a text token by token, at a numeral.
use good_command.Common.{
  ℕ, suc, ◌+◌, ◌≡◌, refl, Bool, false, List, ◌∷◌, arith, ◌==◌, if◌then◌else◌, length, match_option,
}
use good_command.Common.Int.{ℤ, pos}
use good_command.Clib.Scan.{scan_int}
use good_command.Clib.Scan.Decimal.{decimal, numeral, Stops, scan_int-numeral}
use good_command.Expression.{Literal}

-- A round that tests for an operator, then for a blank, and then scans a number finds the number of
-- the literal, and goes on at the text behind it.
pub scan-Literal :
    {X : Type 0} (l : Literal) (rest : List ℕ) (legal : Bool) (operator blank stuck : X)
    (read : ℤ × ℕ → X)
    → Stops rest
    → legal ≡ false
    → (if legal
        then operator
        else if b'0' + l.first == b' '
        then blank
        else match_option (scan_int (numeral (l.first ∷ l.others) rest)) stuck read)
      ≡ read (pos (decimal 0 (l.first ∷ l.others)), suc (length l.others))
scan-Literal l rest legal operator blank stuck read h no_op =
    let no_blank : (b'0' + l.first == b' ') ≡ false = ground (arith, l.valid.0) in
    rw (no_op, no_blank, scan_int-numeral l.first l.others rest l.valid l.small h) refl
