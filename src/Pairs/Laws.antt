-- ===== src/Pairs/Laws.antt =====
-- The pairs that kSmallestPairs.c returns are those that come first when all pairs are put in order.
use mathlib.Core.Path.{subst}
use mathlib.Core.List.{Perm, map-append}
use mathlib.Core.List.Perm
use good_command.Common.{
  ℕ, zero, suc, ◌-◌, ◌^◌, ◌<◌, ◌≡◌, refl, sym, ap, ◌∙◌, inl, inr, false, Option, none, some, List,
  [], ◌∷◌, ◌++◌, arith, ltb, Bool-cases, if◌then◌else◌, length, take, replicate, map, ◌*◌, Yields,
  true,
}
use good_command.Common.Int.{ℤ, pos, nat_abs, ◌+ℤ◌, ◌-ℤ◌, ◌≤ℤ◌, ltb_ℤ}
use good_command.Clib.Int32
use good_command.Clib.Qsort.{Sorter, IsLe, IsOrder, SortedBy, IsQsort}
use good_command.Sorted.{All}
use good_command.Pairs.{SumAll, cmp_sum, fill_row, fill, copy_pairs, Result, k_smallest_pairs}

-- All pairs of the two arrays.
abbrev pub product_row : ℤ → List ℤ → List (ℤ × ℤ)
product_row u [] = []
product_row u (v ∷ vs) = (u, v) ∷ product_row u vs

abbrev pub product : List ℤ → List ℤ → List (ℤ × ℤ)
product [] vs = []
product (u ∷ us) vs = product_row u vs ++ product us vs

abbrev pub IsSmall : ℤ → Type 0
IsSmall x = nat_abs x < 2 ^ 29

-- The first pair has the smaller sum.
abbrev pub SumLe : ℤ × ℤ → ℤ × ℤ → Type 0
SumLe p q = p.0 +ℤ p.1 ≤ℤ q.0 +ℤ q.1

-- The first `k` of a list, in an array of `k` pointers.
abbrev pub slots : ℕ → List (ℤ × ℤ) → List (Option (ℤ × ℤ))
slots k ps = map some (take k ps) ++ replicate (k - length ps) none

pub record IsSmallest (nums1 nums2 : List ℤ) (k : ℕ) (r : Result) : Type 0 where
  pub ranked : List (ℤ × ℤ)
  pub perm : Perm ranked (product nums1 nums2)
  pub in_order : SortedBy SumLe ranked
  pub pairs : r.re ≡ slots k ranked
  pub size : r.return_size ≡ length (take k (product nums1 nums2))
  pub columns : r.return_column_sizes ≡ replicate r.return_size 2

pair_of : SumAll → ℤ × ℤ
pair_of a = (a.u1, a.u2)

-- An entry with the right sum, which is small.
record IsEntry (a : SumAll) : Type 0 where
  right : a.sum ≡ a.u1 +ℤ a.u2
  small : nat_abs a.sum < 2 ^ 30

add-IsEntry :
    (u v : ℤ) → IsSmall u → IsSmall v → IsEntry (record { u1 = u; u2 = v; sum = Int32.add u v })
unfolding Int32.add ◌+ℤ◌
add-IsEntry u v p q =
    let e : Int32.to_int (u +ℤ v) ≡ u +ℤ v = Int32.to_int-eq_self (u +ℤ v) (ground arith) in
    record { right = e; small = rw e (ground arith) }

cmp_sum-IsLe :
    (a b : SumAll) → IsEntry a → IsEntry b → ltb_ℤ (pos 0) (cmp_sum a b) ≡ ltb_ℤ b.sum a.sum
unfolding cmp_sum Int32.sub ◌-ℤ◌
cmp_sum-IsLe a b p q =
    rw (Int32.to_int-eq_self (a.sum -ℤ b.sum) (ground (arith, p.small, q.small))) (ground arith)

cmp_sum-IsOrder : IsOrder IsEntry cmp_sum
cmp_sum-IsOrder = record {
  total = λ a b p q. elim (Bool-cases (ltb_ℤ b.sum a.sum)) [
    | inl gt ↦ inr (cmp_sum-IsLe b a q p ∙ ground arith)
    | inr le ↦ inl (cmp_sum-IsLe a b p q ∙ le)
  ];
  trans = λ a b c p q r le le'.
      let e : ltb_ℤ b.sum a.sum ≡ false = sym (cmp_sum-IsLe a b p q) ∙ le in
      let e' : ltb_ℤ c.sum b.sum ≡ false = sym (cmp_sum-IsLe b c q r) ∙ le' in
      cmp_sum-IsLe a c p r ∙ ground arith;
}

All-append : (xs ys : List SumAll) → All IsEntry xs → All IsEntry ys → All IsEntry (xs ++ ys)
All-append [] ys p q = q
All-append (x ∷ xs) ys p q = (p.0, All-append xs ys p.1 q)

fill_row-IsEntry : (u : ℤ) (vs : List ℤ) → IsSmall u → All IsSmall vs → All IsEntry (fill_row u vs)
unfolding fill_row
fill_row-IsEntry u [] p q = tt
fill_row-IsEntry u (v ∷ vs) p q = (add-IsEntry u v p q.0, fill_row-IsEntry u vs p q.1)

fill-IsEntry : (us vs : List ℤ) → All IsSmall us → All IsSmall vs → All IsEntry (fill us vs)
unfolding fill
fill-IsEntry [] vs p q = tt
fill-IsEntry (u ∷ us) vs p q =
    All-append (fill_row u vs) (fill us vs) (fill_row-IsEntry u vs p.0 q) (fill-IsEntry us vs p.1 q)

map-fill_row : (u : ℤ) (vs : List ℤ) → map pair_of (fill_row u vs) ≡ product_row u vs
unfolding fill_row pair_of
map-fill_row u [] = refl
map-fill_row u (v ∷ vs) = ap (λ ps. (u, v) ∷ ps) (map-fill_row u vs)

map-fill : (us vs : List ℤ) → map pair_of (fill us vs) ≡ product us vs
unfolding fill
map-fill [] vs = refl
map-fill (u ∷ us) vs =
    rw (map-append pair_of (fill_row u vs) (fill us vs), map-fill_row u vs, map-fill us vs) refl

SumLe-map :
    (a : SumAll) (xs : List SumAll)
    → IsEntry a
    → All IsEntry xs
    → All (IsLe cmp_sum a) xs
    → All (SumLe (pair_of a)) (map pair_of xs)
unfolding pair_of
SumLe-map a [] p q h = tt
SumLe-map a (b ∷ xs) p q h =
    let e : ltb_ℤ b.sum a.sum ≡ false = sym (cmp_sum-IsLe a b p q.0) ∙ h.0 in
    (rw (sym p.right, sym q.0.right) (ground arith), SumLe-map a xs p q.1 h.1)

SortedBy-map :
    (xs : List SumAll)
    → All IsEntry xs
    → SortedBy (IsLe cmp_sum) xs
    → SortedBy SumLe (map pair_of xs)
SortedBy-map [] q h = tt
SortedBy-map (a ∷ xs) q h = (SumLe-map a xs q.0 q.1 h.0, SortedBy-map xs q.1 h.1)

take-nil : (k : ℕ) → take {A = ℤ × ℤ} k [] ≡ []
take-nil zero = refl
take-nil (suc k) = refl

length-pairs : (xs : List SumAll) → length (map pair_of xs) ≡ length xs
length-pairs [] = refl
length-pairs (x ∷ xs) = ap suc (length-pairs xs)

copy_pairs-slots : (k : ℕ) (xs : List SumAll) → copy_pairs k xs ≡ slots k (map pair_of xs)
unfolding copy_pairs pair_of
copy_pairs-slots zero xs = let e : 0 - length (map pair_of xs) ≡ 0 = omega arith in rw e refl
copy_pairs-slots (suc k) [] =
    let e : suc k - 0 ≡ suc (k - 0) = omega arith in
    rw e (
      ap (λ ps. none ∷ ps)
        (copy_pairs-slots k [] ∙ ap (λ ps. map some ps ++ replicate (k - 0) none) (take-nil k)))
copy_pairs-slots (suc k) (a ∷ xs) =
    let n = length (map pair_of xs) in
    let e : suc k - suc n ≡ k - n = omega arith in
    rw e (ap (λ ps. some (a.u1, a.u2) ∷ ps) (copy_pairs-slots k xs))

length-take-min :
    {A : Type 0} (k : ℕ) (xs : List A)
    → (if ltb k (length xs) then k else length xs) ≡ length (take k xs)
length-take-min zero [] = refl
length-take-min zero (x ∷ xs) = ground arith
length-take-min (suc k) [] = ground arith
length-take-min (suc k) (x ∷ xs) = ground (arith, length-take-min k xs)

-- For numbers below 2 ^ 29 in size, fewer than 2 ^ 31 pairs, and a `qsort` as the C standard describes it,
-- the function ends with the first k, or all if there are fewer, of the pairs of the two arrays put in the order of their sums,
-- their number, and as many sizes 2.
pub k_smallest_pairs-IsSmallest :
    (qsort : Sorter SumAll) (nums1 nums2 : List ℤ) (k : ℕ)
    → IsQsort qsort
    → All IsSmall nums1
    → All IsSmall nums2
    → length nums1 * length nums2 < 2 ^ 31
    → Yields (IsSmallest nums1 nums2 k) (k_smallest_pairs qsort nums1 nums2 k)
unfolding k_smallest_pairs
k_smallest_pairs-IsSmallest qsort nums1 nums2 k q p₁ p₂ few =
    let sa = fill nums1 nums2 in
    let entries = fill-IsEntry nums1 nums2 p₁ p₂ in
    let sorted = qsort cmp_sum sa in
    let counted : ltb (length nums1 * length nums2) (2 ^ 31) ≡ true = ground (arith, few) in
    rw counted record {
      ranked = map pair_of sorted;
      perm =
          subst (Perm (map pair_of sorted)) (map-fill nums1 nums2)
            (Perm.map pair_of (q.perm cmp_sum sa));
      in_order =
          SortedBy-map sorted (q.keeps cmp_sum IsEntry sa entries)
            (q.sorts IsEntry cmp_sum sa cmp_sum-IsOrder entries);
      pairs = copy_pairs-slots k sorted;
      size =
          ap (λ n. if ltb k n then k else n)
            (sym (length-pairs sa) ∙ ap length (map-fill nums1 nums2))
          ∙ length-take-min k (product nums1 nums2);
      columns = refl;
    }
