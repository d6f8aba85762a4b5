-- ===== src/Clib/Scan.antt =====
-- The scanning of text. A text is the list of its bytes, without the closing NUL, so a pointer into
-- it is the list of the bytes behind it.
pub mod Laws
pub mod Decimal
use good_command.Common.{
  ℕ, zero, suc, ◌+◌, ◌-◌, ◌*◌, ◌≡◌, refl, ◌&&◌, ◌||◌, Bool, true, false, List, [], ◌∷◌, Option,
  none, some, leb, ◌==◌, if◌then◌else◌, drop,
}
use good_command.Common.Int.{ℤ, pos, negsuc, ◌-ℤ◌}
use good_command.Clib.Int32.{to_int}

-- The bytes for which `isspace` holds: the blank, and the tab to the carriage return.
unfoldable pub is_space : ℕ → Bool
is_space c = c == b' ' || (leb 9 c && leb c 13)

unfoldable pub is_digit : ℕ → Bool
is_digit c = leb b'0' c && leb c b'9'

-- How many bytes of white space lead the text.
unfoldable pub spaces : List ℕ → ℕ
unfolding is_space
spaces [] = 0
spaces (c ∷ s) = if is_space c then suc (spaces s) else 0

-- The digits that lead the text, behind the number `acc` that is read so far, with their count.
unfoldable pub digits : ℕ → List ℕ → ℕ × ℕ
unfolding is_digit
digits acc [] = (acc, 0)
digits acc (c ∷ s) =
    let rest = digits (acc * 10 + (c - b'0')) s in
    if is_digit c then (rest.0, suc rest.1) else (acc, 0)

unfoldable pub scan_digits : Bool → ℕ → List ℕ → Option (ℤ × ℕ)
unfolding digits to_int ◌-ℤ◌
scan_digits minus skipped s =
    let found = digits 0 s in
    if found.1 == 0
    then none
    else some (to_int (if minus then pos 0 -ℤ pos found.0 else pos found.0), skipped + found.1)

-- `sscanf (s, "%d%n", &n, &read)`: the number and the bytes read, or `none` for no conversion.
-- A number that does not fit `int` is cut to 32 bits; the C standard leaves its value open.
unfoldable pub scan_signed : ℕ → List ℕ → Option (ℤ × ℕ)
unfolding scan_digits
scan_signed skipped [] = none
scan_signed skipped (c ∷ s) =
    if c == b'-'
    then scan_digits true (skipped + 1) s
    else if c == b'+'
    then scan_digits false (skipped + 1) s
    else scan_digits false skipped (c ∷ s)

unfoldable pub scan_int : List ℕ → Option (ℤ × ℕ)
unfolding scan_signed spaces
scan_int s = scan_signed (spaces s) (drop (spaces s) s)
