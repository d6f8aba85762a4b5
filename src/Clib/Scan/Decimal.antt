-- ===== src/Clib/Scan/Decimal.antt =====
-- A decimal numeral in front of other text is scanned as the number it stands for.
use good_command.Common.{
  ℕ, suc, ◌+◌, ◌-◌, ◌*◌, ◌^◌, ◌<◌, ◌≡◌, refl, true, false, List, [], ◌∷◌, some, arith, ◌==◌, length,
  drop,
}
use good_command.Common.Int.{pos}
use good_command.Clib.Scan.{is_space, is_digit, digits, scan_digits, scan_signed, scan_int}

abbrev pub AllDigits : List ℕ → Type 0
AllDigits [] = Unit {0}
AllDigits (d ∷ ds) = (d < 10) × AllDigits ds

-- The number with the digits `ds` behind those of `acc`.
abbrev pub decimal : ℕ → List ℕ → ℕ
decimal acc [] = acc
decimal acc (d ∷ ds) = decimal (acc * 10 + d) ds

-- The numeral in front of `rest`.
abbrev pub numeral : List ℕ → List ℕ → List ℕ
numeral [] rest = rest
numeral (d ∷ ds) rest = (b'0' + d) ∷ numeral ds rest

-- No digit continues a numeral that ends here.
abbrev pub Stops : List ℕ → Type 0
Stops [] = Unit {0}
Stops (c ∷ s) = is_digit c ≡ false

pub digit-is_digit : (d : ℕ) → d < 10 → is_digit (b'0' + d) ≡ true
unfolding is_digit
digit-is_digit d h = ground arith

pub digits-numeral :
    (acc : ℕ) (ds rest : List ℕ)
    → AllDigits ds
    → Stops rest
    → digits acc (numeral ds rest) ≡ (decimal acc ds, length ds)
unfolding digits
digits-numeral acc [] [] h st = refl
digits-numeral acc [] (c ∷ rest) h st = rw st refl
digits-numeral acc (d ∷ ds) rest (hd, hds) st =
    let e : b'0' + d - b'0' ≡ d = omega arith in
    rw (e, digit-is_digit d hd, digits-numeral (acc * 10 + d) ds rest hds st) refl

pub length-numeral : (ds rest : List ℕ) → length (numeral ds rest) ≡ length ds + length rest
length-numeral [] rest = omega arith
length-numeral (d ∷ ds) rest = omega (arith, length-numeral ds rest)

pub drop-numeral : (ds rest : List ℕ) → drop (length ds) (numeral ds rest) ≡ rest
drop-numeral [] rest = refl
drop-numeral (d ∷ ds) rest = drop-numeral ds rest

scan_digits-numeral :
    (d : ℕ) (ds rest : List ℕ)
    → AllDigits (d ∷ ds)
    → decimal 0 (d ∷ ds) < 2 ^ 31
    → Stops rest
    → scan_digits false 0 (numeral (d ∷ ds) rest) ≡ some (pos (decimal 0 (d ∷ ds)), suc (length ds))
unfolding scan_digits
scan_digits-numeral d ds rest h small st = rw (digits-numeral 0 (d ∷ ds) rest h st) (ground arith)

-- A numeral that fits `int`, up to the first byte that is no digit.
pub scan_int-numeral :
    (d : ℕ) (ds rest : List ℕ)
    → AllDigits (d ∷ ds)
    → decimal 0 (d ∷ ds) < 2 ^ 31
    → Stops rest
    → scan_int (numeral (d ∷ ds) rest) ≡ some (pos (decimal 0 (d ∷ ds)), suc (length ds))
unfolding scan_int scan_signed
scan_int-numeral d ds rest h small st =
    let no_space : is_space (b'0' + d) ≡ false = unfold is_space in ground (arith, h.0) in
    let minus : (b'0' + d == b'-') ≡ false = ground arith in
    let plus : (b'0' + d == b'+') ≡ false = ground arith in
    rw (no_space, minus, plus) (scan_digits-numeral d ds rest h small st)
