-- ===== src/Clib/Qsort/Difference.antt =====
-- Numbers compared by their difference, as long as it does not overflow.
use good_command.Common.{◌^◌, ◌<◌, ◌≡◌, sym, ◌∙◌, inl, inr, false, Bool-cases, List, [], ◌∷◌, arith}
use good_command.Common.Int.{ℤ, pos, nat_abs, ◌-ℤ◌, ◌≤ℤ◌, ltb_ℤ}
use good_command.Clib.Int32
use good_command.Clib.Qsort.{IsLe, IsOrder, SortedBy}
use good_command.Sorted.{All}

abbrev pub IsSmall : ℤ → Type 0
IsSmall x = nat_abs x < 2 ^ 30

-- The order of the array.
abbrev pub Le : ℤ → ℤ → Type 0
Le x y = x ≤ℤ y

-- Without an overflow the comparison is that of the numbers.
sub-IsLe : (x y : ℤ) → IsSmall x → IsSmall y → ltb_ℤ (pos 0) (Int32.sub x y) ≡ ltb_ℤ y x
unfolding Int32.sub ◌-ℤ◌
sub-IsLe x y p q = rw (Int32.to_int-eq_self (x -ℤ y) (ground arith)) (ground arith)

pub sub-IsOrder : IsOrder IsSmall Int32.sub
sub-IsOrder = record {
  total = λ x y p q. elim (Bool-cases (ltb_ℤ y x)) [
    | inl larger ↦ inr (sub-IsLe y x q p ∙ ground arith)
    | inr le ↦ inl (sub-IsLe x y p q ∙ le)
  ];
  trans = λ x y z p q r le le'.
      let e : ltb_ℤ y x ≡ false = sym (sub-IsLe x y p q) ∙ le in
      let e' : ltb_ℤ z y ≡ false = sym (sub-IsLe y z q r) ∙ le' in sub-IsLe x z p r ∙ ground arith;
}

Le-All :
    (x : ℤ) (xs : List ℤ) → IsSmall x → All IsSmall xs → All (IsLe Int32.sub x) xs → All (Le x) xs
Le-All x [] p q h = tt
Le-All x (y ∷ xs) p q h =
    let e : ltb_ℤ y x ≡ false = sym (sub-IsLe x y p q.0) ∙ h.0 in
    (ground arith, Le-All x xs p q.1 h.1)

pub Le-sorted : (xs : List ℤ) → All IsSmall xs → SortedBy (IsLe Int32.sub) xs → SortedBy Le xs
Le-sorted [] q h = tt
Le-sorted (x ∷ xs) q h = (Le-All x xs q.0 q.1 h.0, Le-sorted xs q.1 h.1)
