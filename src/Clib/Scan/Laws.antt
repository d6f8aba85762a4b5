-- ===== src/Clib/Scan/Laws.antt =====
-- What a conversion by `%d` reads.
use good_command.Common.{
  ℕ, ◌+◌, ◌-◌, ◌*◌, ◌≤◌, ◌≡◌, Bool, true, false, List, [], ◌∷◌, Option, none, some, arith, length,
  drop, if◌then◌else◌, match_option, ◌==◌,
}
use good_command.Common.Int.{ℤ, pos, ◌-ℤ◌}
use good_command.Clib.Int32.{IsInt, to_int-IsInt}
use good_command.Clib.Scan.{spaces, digits, scan_digits, scan_signed, scan_int}

scan_digits-reads :
    (minus : Bool) (k : ℕ) (s : List ℕ) (v : ℤ) (n : ℕ)
    → scan_digits minus k s ≡ some (v, n)
    → 1 ≤ n
unfolding scan_digits
scan_digits-reads minus k s v n h = ground arith

scan_signed-reads : (k : ℕ) (s : List ℕ) (v : ℤ) (n : ℕ) → scan_signed k s ≡ some (v, n) → 1 ≤ n
unfolding scan_signed
scan_signed-reads k [] v n h = ground arith
scan_signed-reads k (c ∷ s) v n h = ground (
  arith,
  scan_digits-reads true (k + 1) s v n,
  scan_digits-reads false (k + 1) s v n,
  scan_digits-reads false k (c ∷ s) v n,
)

-- A conversion reads at least one byte.
pub scan_int-reads : (s : List ℕ) (v : ℤ) (n : ℕ) → scan_int s ≡ some (v, n) → 1 ≤ n
unfolding scan_int
scan_int-reads s v n h = scan_signed-reads (spaces s) (drop (spaces s) s) v n h

length-drop-spaces : (s : List ℕ) → spaces s + length (drop (spaces s) s) ≤ length s
unfolding spaces
length-drop-spaces [] = omega arith
length-drop-spaces (c ∷ s) = ground (arith, length-drop-spaces s)

digits-within : (acc : ℕ) (s : List ℕ) → (digits acc s).1 ≤ length s
unfolding digits
digits-within acc [] = omega arith
digits-within acc (c ∷ s) = ground (arith, digits-within (acc * 10 + (c - b'0')) s)

scan_digits-within :
    (minus : Bool) (k : ℕ) (s : List ℕ) (v : ℤ) (n : ℕ)
    → scan_digits minus k s ≡ some (v, n)
    → n ≤ k + length s
unfolding scan_digits
scan_digits-within minus k s v n h = ground (arith, digits-within 0 s)

scan_signed-within :
    (k : ℕ) (s : List ℕ) (v : ℤ) (n : ℕ) → scan_signed k s ≡ some (v, n) → n ≤ k + length s
unfolding scan_signed
scan_signed-within k [] v n h = ground arith
scan_signed-within k (c ∷ s) v n h = ground (
  arith,
  scan_digits-within true (k + 1) s v n,
  scan_digits-within false (k + 1) s v n,
  scan_digits-within false k (c ∷ s) v n,
)

-- A conversion reads no more than there is.
pub scan_int-within : (s : List ℕ) (v : ℤ) (n : ℕ) → scan_int s ≡ some (v, n) → n ≤ length s
unfolding scan_int
scan_int-within s v n h =
    omega (arith, scan_signed-within (spaces s) (drop (spaces s) s) v n h, length-drop-spaces s)

-- The number of a conversion fits `int`.
abbrev ScansInt : Option (ℤ × ℕ) → Type 0
ScansInt none = Unit {0}
ScansInt (some (v, n)) = IsInt v

if-ScansInt :
    (test : Bool) (a b : Option (ℤ × ℕ))
    → ScansInt a
    → ScansInt b
    → ScansInt (if test then a else b)
if-ScansInt true a b h k = h
if-ScansInt false a b h k = k

scan_digits-ScansInt : (minus : Bool) (k : ℕ) (s : List ℕ) → ScansInt (scan_digits minus k s)
unfolding scan_digits
scan_digits-ScansInt minus k s =
    if-ScansInt ((digits 0 s).1 == 0) none _ tt
      (to_int-IsInt (if minus then pos 0 -ℤ pos (digits 0 s).0 else pos (digits 0 s).0))

scan_signed-ScansInt : (k : ℕ) (s : List ℕ) → ScansInt (scan_signed k s)
unfolding scan_signed
scan_signed-ScansInt k [] = tt
scan_signed-ScansInt k (c ∷ s) = if-ScansInt (c == b'-') _ _ (scan_digits-ScansInt true (k + 1) s) (
    if-ScansInt (c == b'+') _ _ (scan_digits-ScansInt false (k + 1) s)
      (scan_digits-ScansInt false k (c ∷ s)))

value-IsInt : (o : Option (ℤ × ℕ)) → ScansInt o → IsInt (match_option o (pos 0) (λ found. found.0))
value-IsInt none h = omega arith
value-IsInt (some (v, n)) h = h

pub scan_int-IsInt : (s : List ℕ) → IsInt (match_option (scan_int s) (pos 0) (λ found. found.0))
unfolding scan_int
scan_int-IsInt s = value-IsInt _ (scan_signed-ScansInt (spaces s) (drop (spaces s) s))
