-- ===== src/Pairs.antt =====
-- source/src/leetcode/kSmallestPairs.c: the k pairs of two arrays with the smallest sums. `qsort` is a
-- parameter.
pub mod Laws
pub mod Main
mod Tests
use good_command.Common.{
  ℕ, zero, suc, Option, none, some, List, [], ◌∷◌, ◌++◌, ltb, if◌then◌else◌, length, replicate,
  Exec, value, trap, ◌*◌, ◌^◌,
}
use good_command.Common.Int.{ℤ}
use good_command.Clib.Int32
use good_command.Clib.Qsort.{Sorter}

pub record SumAll : Type 0 where
  pub u1 : ℤ
  pub u2 : ℤ
  pub sum : ℤ

unfoldable pub cmp_sum : SumAll → SumAll → ℤ
cmp_sum a b = Int32.sub a.sum b.sum

-- The inner loop, for one element of `nums1`.
unfoldable pub fill_row : ℤ → List ℤ → List SumAll
fill_row u1 [] = []
fill_row u1 (u2 ∷ nums2) = record { u1 = u1; u2 = u2; sum = Int32.add u1 u2 } ∷ fill_row u1 nums2

-- The array `sa` before it is sorted.
unfoldable pub fill : List ℤ → List ℤ → List SumAll
unfolding fill_row
fill [] nums2 = []
fill (u1 ∷ nums1) nums2 = fill_row u1 nums2 ++ fill nums1 nums2

-- The array `re` of `k` pointers, cleared at first; `n` runs up to `k` and to the end of `sa`.
unfoldable pub copy_pairs : ℕ → List SumAll → List (Option (ℤ × ℤ))
copy_pairs zero sa = []
copy_pairs (suc k) [] = none ∷ copy_pairs k []
copy_pairs (suc k) (a ∷ sa) = some (a.u1, a.u2) ∷ copy_pairs k sa

-- What is returned, and what is written through the two pointers.
pub record Result : Type 0 where
  pub re : List (Option (ℤ × ℤ))
  pub return_size : ℕ
  pub return_column_sizes : List ℕ

-- The number of the pairs is counted, and worked out as a product, in an `int`.
unfoldable pub k_smallest_pairs : Sorter SumAll → (nums1 nums2 : List ℤ) → ℕ → Exec Result
unfolding fill copy_pairs cmp_sum
k_smallest_pairs qsort nums1 nums2 k =
    let sa = fill nums1 nums2 in
    let m = length sa in
    let min = if ltb k m then k else m in
    if ltb (length nums1 * length nums2) (2 ^ 31)
    then value record {
      re = copy_pairs k (qsort cmp_sum sa);
      return_size = min;
      return_column_sizes = replicate min 2;
    }
    else trap
