-- ===== src/Clib/Print/Short.antt =====
-- A number that was scanned fits `int`, and is not much longer in print.
use good_command.Common.{
  ℕ, zero, suc, ◌+◌, ◌-◌, ◌*◌, ◌^◌, ◌≤◌, ◌<◌, ◌≡◌, refl, ap, ◌⊎◌, Bool, true, false, inl, inr, List,
  [], ◌∷◌, none, some, arith, ◌==◌, if◌then◌else◌, Bool-cases, length, drop,
}
use good_command.Common.Int.{ℤ, pos, negsuc, ◌-ℤ◌}
use good_command.Clib.Int32.{IsInt, to_int, to_int-IsInt, to_int-eq_self}
use good_command.Clib.Scan.{is_digit, digits, scan_digits, scan_signed, scan_int, spaces}
use good_command.Clib.Scan.Decimal.{numeral}
use good_command.Clib.Bytes.Text.{NoNul}
use good_command.Clib.Print.{digits_of, print_int}
use good_command.Clib.Print.Laws.{pow10, length-digits_of, length-numeral_nil, length-print_int}

-- The bound of the numbers with `n` digits behind those of `acc`.
abbrev below : ℕ → ℕ → ℕ
below zero acc = suc acc
below (suc n) acc = below n (acc * 10 + 9)

below_mono : (n a b : ℕ) → a ≤ b → below n a ≤ below n b
below_mono zero a b h = omega arith
below_mono (suc n) a b h = below_mono n (a * 10 + 9) (b * 10 + 9) (omega arith)

digits-below : (acc : ℕ) (s : List ℕ) → (digits acc s).0 < below (digits acc s).1 acc
unfolding digits is_digit
digits-below acc [] = omega arith
digits-below acc (c ∷ s) = elim (Bool-cases (is_digit c)) [
  | inl digit ↦
      let small : acc * 10 + (c - b'0') ≤ acc * 10 + 9 = ground arith in
      let rest = digits (acc * 10 + (c - b'0')) s in
      rw digit (omega (arith, digits-below (acc * 10 + (c - b'0')) s, below_mono rest.1 _ _ small))
  | inr other ↦ rw other (omega arith)
]

length-pos :
    (d n : ℕ) → n < pow10 (suc d) → n < 2 ^ 31 → length (print_int (to_int (pos n))) ≤ suc d
unfolding print_int
length-pos d n lt small =
    rw (to_int-eq_self (pos n) small)
      (omega (arith, length-numeral_nil (digits_of 9 n []), length-digits_of 9 n d [] lt))

length-minus :
    (d n : ℕ)
    → n < pow10 (suc d)
    → n < 2 ^ 31
    → length (print_int (to_int (pos 0 -ℤ pos n))) ≤ suc (suc d)
unfolding print_int
length-minus d zero lt small =
    let e : to_int (pos 0 -ℤ pos 0) ≡ pos 0 = unfold ◌-ℤ◌ in to_int-eq_self (pos 0) small in
    rw e (omega (arith, length-numeral_nil (digits_of 9 0 []), length-digits_of 9 0 d [] lt))
length-minus d (suc n) lt small =
    let minus : pos 0 -ℤ pos (suc n) ≡ negsuc n = unfold ◌-ℤ◌ in ground arith in
    rw (minus, to_int-eq_self (negsuc n) (omega arith))
      (omega (
        arith,
        length-numeral_nil (digits_of 9 (n + 1) []),
        length-digits_of 9 (n + 1) d [] (omega arith),
      ))

abbrev signed : Bool → ℕ → ℤ
signed minus n = if minus then pos 0 -ℤ pos n else pos n

length-signed :
    (minus : Bool) (d n : ℕ)
    → n < pow10 (suc d)
    → n < 2 ^ 31
    → length (print_int (to_int (signed minus n))) ≤ suc d + (if minus then 1 else 0)
length-signed true d n lt small = omega (arith, length-minus d n lt small)
length-signed false d n lt small = omega (arith, length-pos d n lt small)

-- Up to five digits the number fits `int`, and more than five are as many as any number needs.
short :
    (minus : Bool) (cnt n : ℕ)
    → n < below cnt 0
    → 1 ≤ cnt
    → length (print_int (to_int (signed minus n))) + 1 ≤ 2 * (cnt + (if minus then 1 else 0))
short minus (suc zero) n lt h = omega (arith, length-signed minus 0 n lt (omega arith))
short minus (suc (suc zero)) n lt h = omega (arith, length-signed minus 1 n lt (omega arith))
short minus (suc (suc (suc zero))) n lt h = omega (arith, length-signed minus 2 n lt (omega arith))
short minus (suc (suc (suc (suc zero)))) n lt h =
    omega (arith, length-signed minus 3 n lt (omega arith))
short minus (suc (suc (suc (suc (suc zero))))) n lt h =
    omega (arith, length-signed minus 4 n lt (omega arith))
short minus zero n lt h = absurd (omega arith)
short minus (suc (suc (suc (suc (suc (suc k)))))) n lt h =
    omega (arith, length-print_int (to_int (signed minus n)))

-- What a conversion that reads `n` bytes finds.
pub record IsShort (v : ℤ) (n : ℕ) : Type 0 where
  pub int : IsInt v
  pub length_le : length (print_int v) + 1 ≤ 2 * n

if-some :
    {A : Type 0} (b : Bool) {x y : A}
    → (if b then none else some x) ≡ some y
    → (b ≡ false) × (x ≡ y)
if-some true h = cc
if-some false h = (refl, cc)

if-cases : {A : Type 0} (b : Bool) {x y z : A} → (if b then x else y) ≡ z → (x ≡ z) ⊎ (y ≡ z)
if-cases true h = inl h
if-cases false h = inr h

scan_digits-IsShort :
    (minus : Bool) (k : ℕ) (s : List ℕ) (v : ℤ) (n : ℕ)
    → (if minus then 1 else 0) ≤ k
    → scan_digits minus k s ≡ some (v, n)
    → IsShort v n
unfolding scan_digits
scan_digits-IsShort minus k s v n le h =
    let found = digits 0 s in
    let (found_some, both) = if-some (found.1 == 0) h in
    let read : k + found.1 ≡ n = ap (λ p. p.1) both in
    rw (← ap (λ p. p.0) both) record {
      int = to_int-IsInt (signed minus found.0);
      length_le = omega (
        arith,
        read,
        le,
        short minus found.1 found.0 (digits-below 0 s) (ground (arith, found_some)),
      );
    }

scan_signed-IsShort :
    (k : ℕ) (s : List ℕ) (v : ℤ) (n : ℕ) → scan_signed k s ≡ some (v, n) → IsShort v n
unfolding scan_signed
scan_signed-IsShort k [] v n h = ground arith
scan_signed-IsShort k (c ∷ s) v n h = elim (if-cases (c == b'-') h) [
  | inl minus ↦ scan_digits-IsShort true (k + 1) s v n (omega arith) minus
  | inr no_minus ↦ elim (if-cases (c == b'+') no_minus) [
    | inl plus ↦ scan_digits-IsShort false (k + 1) s v n (omega arith) plus
    | inr no_plus ↦ scan_digits-IsShort false k (c ∷ s) v n (omega arith) no_plus
  ]
]

-- A conversion finds a number of `int`, which with a blank behind it is printed in at most two
-- bytes for each byte read.
pub scan_int-IsShort : (s : List ℕ) (v : ℤ) (n : ℕ) → scan_int s ≡ some (v, n) → IsShort v n
unfolding scan_int
scan_int-IsShort s v n h = scan_signed-IsShort (spaces s) (drop (spaces s) s) v n h

NoNul-numeral : (ds : List ℕ) → NoNul (numeral ds [])
NoNul-numeral [] = tt
NoNul-numeral (d ∷ ds) = (ground arith, NoNul-numeral ds)

pub print_int-NoNul : (v : ℤ) → NoNul (print_int v)
unfolding print_int
print_int-NoNul (pos n) = NoNul-numeral (digits_of 9 n [])
print_int-NoNul (negsuc n) = (refl, NoNul-numeral (digits_of 9 (n + 1) []))
