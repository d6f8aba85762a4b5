-- ===== src/Clib/Print/Laws.antt =====
-- What is printed by `%d` is read again by `%d`, and how long it is.
use good_command.Common.{
  ℕ, zero, suc, ◌+◌, ◌*◌, ◌/◌, ◌%◌, ◌^◌, ◌≤◌, ◌<◌, ◌≡◌, refl, sym, ap, ◌∙◌, inl, inr, true, some,
  List, [], ◌∷◌, ◌++◌, arith, ltb, Bool-cases, length,
}
use good_command.Common.Int.{ℤ, pos, negsuc, ◌-ℤ◌}
use good_command.Clib.Int32.{IsInt, to_int-eq_self}
use good_command.Clib.Scan.{is_space, scan_digits, scan_signed, scan_int}
use good_command.Clib.Scan.Decimal.{
  AllDigits, decimal, numeral, length-numeral, Stops, digits-numeral, scan_int-numeral,
}
use good_command.Clib.Print.{digits_of, print_int}

pub numeral-append : (ds rest : List ℕ) → numeral ds [] ++ rest ≡ numeral ds rest
numeral-append [] rest = refl
numeral-append (d ∷ ds) rest = ap (λ t. (b'0' + d) ∷ t) (numeral-append ds rest)

abbrev pub pow10 : ℕ → ℕ
pow10 zero = 1
pow10 (suc k) = 10 * pow10 k

-- The digits, with the first of them apart.
pub record IsDecimal (n : ℕ) (acc ds : List ℕ) : Type 0 where
  pub first : ℕ
  pub others : List ℕ
  pub parts : ds ≡ first ∷ others
  pub valid : AllDigits (first ∷ others)
  pub same : decimal 0 (first ∷ others) ≡ decimal n acc

decimal-eq : (n m : ℕ) (acc : List ℕ) → n ≡ m → decimal n acc ≡ decimal m acc
decimal-eq n m acc e = ap (λ k. decimal k acc) e

pub digits_of-IsDecimal :
    (k n : ℕ) (acc : List ℕ)
    → n < pow10 (suc k)
    → AllDigits acc
    → IsDecimal n acc (digits_of k n acc)
unfolding digits_of
digits_of-IsDecimal zero n acc lt h = record {
  first = n;
  others = acc;
  parts = refl;
  valid = (omega arith, h);
  same = decimal-eq (0 * 10 + n) n acc (omega arith);
}
digits_of-IsDecimal (suc k) n acc lt h = elim (Bool-cases (ltb n 10)) [
  | inl small ↦ rw small record {
    first = n;
    others = acc;
    parts = refl;
    valid = (ground arith, h);
    same = decimal-eq (0 * 10 + n) n acc (omega arith);
  }
  | inr large ↦ rw large (
      let r = digits_of-IsDecimal k (n / 10) (n % 10 ∷ acc) (omega arith) (omega arith, h) in
      record {
        first = r.first;
        others = r.others;
        parts = r.parts;
        valid = r.valid;
        same = r.same ∙ decimal-eq (n / 10 * 10 + n % 10) n acc (omega arith);
      })
]

pub digits_of-IsDecimal_int : (n : ℕ) → n < 2 ^ 32 → IsDecimal n [] (digits_of 9 n [])
digits_of-IsDecimal_int n lt = digits_of-IsDecimal 9 n [] (omega arith) tt

-- No number is longer than the digits it was read from.
pub length-digits_of :
    (k n d : ℕ) (acc : List ℕ) → n < pow10 (suc d) → length (digits_of k n acc) ≤ suc d + length acc
unfolding digits_of
length-digits_of zero n d acc lt = omega arith
length-digits_of (suc k) n zero acc lt =
    let small : ltb n 10 ≡ true = ground arith in rw small (omega arith)
length-digits_of (suc k) n (suc d) acc lt = elim (Bool-cases (ltb n 10)) [
  | inl small ↦ rw small (omega arith)
  | inr large ↦ rw large (omega (arith, length-digits_of k (n / 10) d (n % 10 ∷ acc) (omega arith)))
]

pub length-digits_of-le : (k n : ℕ) (acc : List ℕ) → length (digits_of k n acc) ≤ suc k + length acc
unfolding digits_of
length-digits_of-le zero n acc = omega arith
length-digits_of-le (suc k) n acc = elim (Bool-cases (ltb n 10)) [
  | inl small ↦ rw small (omega arith)
  | inr large ↦ rw large (omega (arith, length-digits_of-le k (n / 10) (n % 10 ∷ acc)))
]

pub length-numeral_nil : (ds : List ℕ) → length (numeral ds []) ≡ length ds
length-numeral_nil ds = omega (arith, length-numeral ds [])

pub length-print_int : (v : ℤ) → length (print_int v) ≤ 11
unfolding print_int
length-print_int (pos n) =
    omega (arith, length-numeral_nil (digits_of 9 n []), length-digits_of-le 9 n [])
length-print_int (negsuc n) =
    omega (arith, length-numeral_nil (digits_of 9 (n + 1) []), length-digits_of-le 9 (n + 1) [])

scan_digits-minus :
    (d n : ℕ) (ds rest : List ℕ)
    → AllDigits (d ∷ ds)
    → decimal 0 (d ∷ ds) ≡ n + 1
    → n < 2 ^ 31
    → Stops rest
    → scan_digits true 1 (numeral (d ∷ ds) rest) ≡ some (negsuc n, 1 + suc (length ds))
unfolding scan_digits ◌-ℤ◌
scan_digits-minus d n ds rest h e lt st =
    rw (digits-numeral 0 (d ∷ ds) rest h st, e) (ground (arith, to_int-eq_self (negsuc n)))

-- What is printed is read again, up to a byte that is no digit.
pub scan_int-print_int :
    (v : ℤ) (rest : List ℕ)
    → IsInt v
    → Stops rest
    → scan_int (print_int v ++ rest) ≡ some (v, length (print_int v))
unfolding print_int
scan_int-print_int (pos n) rest lt st =
    let r = digits_of-IsDecimal_int n (omega arith) in
    rw (r.parts, numeral-append (r.first ∷ r.others) rest)
      (scan_int-numeral r.first r.others rest r.valid (omega (arith, r.same)) st
        ∙ ap (λ k. some (pos k, suc (length r.others))) r.same
        ∙ ap (λ k. some (pos n, k)) (sym (length-numeral_nil (r.first ∷ r.others))))
scan_int-print_int (negsuc n) rest lt st =
    let r = digits_of-IsDecimal_int (n + 1) (omega arith) in
    let size : 1 + suc (length r.others) ≡ suc (length (numeral (r.first ∷ r.others) [])) =
      omega (arith, length-numeral_nil (r.first ∷ r.others)) in
    rw (r.parts, numeral-append (r.first ∷ r.others) rest)
      (unfold scan_int scan_signed is_space in
        (scan_digits-minus r.first n r.others rest r.valid r.same lt st
          ∙ ap (λ k. some (negsuc n, k)) size))
