-- ===== src/Median/Laws.antt =====
-- The merge of median-of-two-sorted-arrays.c, and the median that is read from it.
use mathlib.Core.List.{Perm}
use good_command.Common.{
  ℕ, zero, suc, ◌+◌, ◌-◌, ◌/◌, ◌%◌, ◌^◌, ◌≤◌, ◌<◌, ◌≡◌, refl, ◌∙◌, inl, inr, List, [], ◌∷◌, ◌++◌,
  arith, ◌==◌, Bool-cases, length, length-append, get_or, drop, Exec, value, ◌>>=◌, Yields,
  Yields-bind,
}
use good_command.Common.Int.{ℤ, pos, nat_abs, +ℤ_parts, eq_of_parts, ◌+ℤ◌, leb_ℤ}
use good_command.Clib.Int32
use good_command.Sorted.{
  Before, Sorted, All, Merge, Merge-Sorted, Merge-Perm, Merge-All, Merge-length, All-get_or,
}
use good_command.Median.{read, merge_loop, Double, find_median_sorted_arrays}

-- What stands at an index inside the array.
record At (xs : List ℤ) (j : ℕ) : Type 0 where
  elem : ℤ
  found : read xs j ≡ value elem
  split : drop j xs ≡ elem ∷ drop (suc j) xs

read-At : (xs : List ℤ) (j : ℕ) → j < length xs → At xs j
unfolding read
read-At [] j lt = absurd (omega arith)
read-At (x ∷ xs) zero lt = record { elem = x; found = refl; split = refl }
read-At (x ∷ xs) (suc j) lt =
    let a = read-At xs j (omega arith) in record { elem = a.elem; found = a.found; split = a.split }

drop-end : (n : ℕ) (xs : List ℤ) → n ≡ length xs → drop n xs ≡ []
drop-end zero [] e = refl
drop-end zero (x ∷ xs) e = absurd (omega arith)
drop-end (suc n) [] e = refl
drop-end (suc n) (x ∷ xs) e = drop-end n xs (omega arith)

module _ (nums1 nums2 : List ℤ) where
  take1 :
      (j1 j2 : ℕ) (m : Exec (List ℤ)) (a : At nums1 j1)
      → Before a.elem (drop j2 nums2)
      → Yields (Merge (drop (suc j1) nums1) (drop j2 nums2)) m
      → Yields (Merge (drop j1 nums1) (drop j2 nums2)) (m >>= λ c. value (a.elem ∷ c))
  take1 j1 j2 m a b ih =
      rw a.split
        (Yields-bind (Merge (drop (suc j1) nums1) (drop j2 nums2)) _ m _ ih (λ c r. Merge.left b r))

  take2 :
      (j1 j2 : ℕ) (m : Exec (List ℤ)) (a : At nums2 j2)
      → Before a.elem (drop j1 nums1)
      → Yields (Merge (drop j1 nums1) (drop (suc j2) nums2)) m
      → Yields (Merge (drop j1 nums1) (drop j2 nums2)) (m >>= λ c. value (a.elem ∷ c))
  take2 j1 j2 m a b ih =
      rw a.split (
        Yields-bind (Merge (drop j1 nums1) (drop (suc j2) nums2)) _ m _ ih (λ c r. Merge.right b r))

  merge_loop-Merge :
      (rounds j1 j2 : ℕ)
      → j1 ≤ length nums1
      → j2 ≤ length nums2
      → rounds + j1 + j2 ≡ length nums1 + length nums2
      → Yields (Merge (drop j1 nums1) (drop j2 nums2)) (merge_loop nums1 nums2 rounds j1 j2)
  unfolding merge_loop
  merge_loop-Merge zero j1 j2 le₁ le₂ e =
      rw (drop-end j1 nums1 (omega arith), drop-end j2 nums2 (omega arith)) Merge.done
  merge_loop-Merge (suc rounds) j1 j2 le₁ le₂ e = elim (Bool-cases (j1 == length nums1)) [
    | inl end₁ ↦
        let b = read-At nums2 j2 (ground arith) in
        rw (end₁, b.found)
          (take2 j1 j2 _ b (rw (drop-end j1 nums1 (ground arith)) tt)
            (merge_loop-Merge rounds j1 (suc j2) le₁ (ground arith) (omega arith)))
    | inr more₁ ↦
        let a = read-At nums1 j1 (ground arith) in
        rw more₁ (elim (Bool-cases (j2 == length nums2)) [
          | inl end₂ ↦
              rw (end₂, a.found)
                (take1 j1 j2 _ a (rw (drop-end j2 nums2 (ground arith)) tt)
                  (merge_loop-Merge rounds (suc j1) j2 (ground arith) le₂ (omega arith)))
          | inr more₂ ↦
              let b = read-At nums2 j2 (ground arith) in
              rw (more₂, a.found, b.found)
                (elim (Bool-cases (leb_ℤ a.elem b.elem)) [
                  | inl le ↦ rw le (
                      take1 j1 j2 _ a (rw b.split (ground arith))
                        (merge_loop-Merge rounds (suc j1) j2 (ground arith) le₂ (omega arith)))
                  | inr gt ↦ rw gt (
                      take2 j1 j2 _ b (rw a.split (ground arith))
                        (merge_loop-Merge rounds j1 (suc j2) le₁ (ground arith) (omega arith)))
                ])
        ])
  ]

read-get_or : (xs : List ℤ) (i : ℕ) → i < length xs → read xs i ≡ value (get_or xs i (pos 0))
unfolding read
read-get_or [] i lt = absurd (omega arith)
read-get_or (x ∷ xs) zero lt = refl
read-get_or (x ∷ xs) (suc i) lt = read-get_or xs i (omega arith)

-- Two of them have a sum that fits in `int`.
abbrev pub IsSmall : ℤ → Type 0
IsSmall x = nat_abs x < 2 ^ 30

sum-IsInt : (a b : ℤ) → IsSmall a → IsSmall b → Int32.IsInt (a +ℤ b)
unfolding ◌+ℤ◌
sum-IsInt a b p q = ground arith

add-eq : (a b : ℤ) → IsSmall a → IsSmall b → Int32.add a b ≡ a +ℤ b
unfolding Int32.add
add-eq a b p q = Int32.to_int-eq_self (a +ℤ b) (sum-IsInt a b p q)

+ℤ_comm : (a b : ℤ) → a +ℤ b ≡ b +ℤ a
+ℤ_comm a b = eq_of_parts (a +ℤ b) (b +ℤ a) (omega (arith, +ℤ_parts a b, +ℤ_parts b a))

-- `d` is half the sum of the two elements of `xs` that are in the middle of the order, which are the
-- same one if their number is odd.
pub record IsMedian (xs : List ℤ) (d : Double) : Type 0 where
  pub ordered : List ℤ
  pub perm : Perm ordered xs
  pub in_order : Sorted ordered
  pub middle :
      d.halves
      ≡ get_or ordered ((length xs - 1) / 2) (pos 0) +ℤ get_or ordered (length xs / 2) (pos 0)

-- For two sorted arrays of numbers below 2 ^ 30 in size, not both empty, `findMedianSortedArrays` ends
-- with the median of all their elements.
pub find_median_sorted_arrays-IsMedian :
    (nums1 nums2 : List ℤ)
    → Sorted nums1
    → Sorted nums2
    → All IsSmall nums1
    → All IsSmall nums2
    → 0 < length nums1 + length nums2
    → Yields (IsMedian (nums1 ++ nums2)) (find_median_sorted_arrays nums1 nums2)
unfolding find_median_sorted_arrays
find_median_sorted_arrays-IsMedian nums1 nums2 s₁ s₂ p₁ p₂ some_element =
    let s = length nums1 + length nums2 in
    Yields-bind (Merge nums1 nums2) (IsMedian (nums1 ++ nums2)) _ _
      (merge_loop-Merge nums1 nums2 s 0 0 (omega arith) (omega arith) (omega arith))
      λ c m.
        let n : length c ≡ s = Merge-length m in
        let all = Merge-All IsSmall m p₁ p₂ in
        let a = get_or c (s / 2) (pos 0) in
        let read_a : read c (s / 2) ≡ value a = read-get_or c (s / 2) (omega arith) in
        elim (Bool-cases (s % 2 == 0)) [
          | inl is_even ↦
              let b = get_or c (s / 2 - 1) (pos 0) in
              let read_b : read c (s / 2 - 1) ≡ value b = read-get_or c (s / 2 - 1) (omega arith) in
              rw (is_even, read_a, read_b)
                record {
                  ordered = c;
                  perm = Merge-Perm m;
                  in_order = Merge-Sorted m s₁ s₂;
                  middle = rw (length-append nums1 nums2) (
                      let e : (s - 1) / 2 ≡ s / 2 - 1 = ground arith in
                      rw e (
                        add-eq a b (All-get_or IsSmall c (s / 2) (pos 0) all (omega arith))
                          (All-get_or IsSmall c (s / 2 - 1) (pos 0) all (omega arith))
                        ∙ +ℤ_comm a b));
                }
          | inr is_odd ↦
              rw (is_odd, read_a)
                record {
                  ordered = c;
                  perm = Merge-Perm m;
                  in_order = Merge-Sorted m s₁ s₂;
                  middle =
                      rw (length-append nums1 nums2)
                        (let e : (s - 1) / 2 ≡ s / 2 = ground arith in rw e refl);
                }
        ]
