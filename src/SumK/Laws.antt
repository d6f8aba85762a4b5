-- ===== src/SumK/Laws.antt =====
-- The count of sumk.c is that of the pairs.
use mathlib.Core.List.{Perm}
use good_command.Common.{
  ℕ, zero, suc, ◌+◌, ◌-◌, ◌%◌, ◌^◌, ◌≡◌, refl, sym, ap, ◌∙◌, List, [], ◌∷◌, append-nil, arith,
  length, value, trap, Exec, ltb, if◌then◌else◌,
}
use good_command.Common.Int.{ℤ}
use good_command.Clib.Int32
use good_command.Clib.Qsort.{Sorter, SortedBy, IsQsort}
use good_command.Common.Perm.{Perm-length}
use good_command.Sorted.{All}
use good_command.SumK.{compare, count_loop, count_pairs}
use good_command.SumK.Pairs.{pairs, pairs-Perm}
use good_command.Clib.Qsort.Difference.{IsSmall, Le, sub-IsOrder, Le-sorted}
use good_command.SumK.Window.{count_loop-pairs}

count_loop-sorted :
    (a : List ℤ) (k : ℤ) (n : ℕ)
    → n ≡ length a
    → All IsSmall a
    → SortedBy Le a
    → count_loop (n + 1) a k 0 (n - 1) 0 ≡ value (pairs k a % 2 ^ 64)
count_loop-sorted [] k n e p s =
    let none_left : n + 1 ≡ suc zero = omega arith in
    let stay : n - 1 ≡ 0 = omega arith in rw (none_left, stay) (unfold count_loop in refl)
count_loop-sorted (x ∷ a) k n e p s =
    count_loop-pairs (x ∷ a) k (n + 1) 0 (n - 1) 0 [] (x ∷ a) []
      record {
        parts = sym (append-nil (x ∷ a));
        at = refl;
        to = omega arith;
        small = p;
        sorted = s;
      }
      (omega arith) (omega arith) (omega arith)
    ∙ ap value (omega arith)

-- For at most 200001 numbers below 2 ^ 30 in size, and with a `qsort` as the C standard describes it, the
-- loop of the file, without the stray `if` that keeps it from being compiled, ends with the number of the
-- pairs of two places in the array whose numbers have a sum of at most `k`, modulo 2 ^ 64. More numbers
-- are written past the array.
pub count_pairs-pairs :
    (qsort : Sorter ℤ) (numbers : List ℤ) (k : ℤ)
    → IsQsort qsort
    → All IsSmall numbers
    → count_pairs qsort numbers k
      ≡ (if ltb 200001 (length numbers) then trap else value (pairs k numbers % 2 ^ 64))
unfolding count_pairs compare
count_pairs-pairs qsort numbers k std small =
    let a = qsort compare numbers in
    let same : Perm a numbers = std.perm compare numbers in
    let kept : All IsSmall a = std.keeps compare IsSmall numbers small in
    let counted =
      count_loop-sorted a k (length numbers) (sym (Perm-length same)) kept
        (Le-sorted a kept (std.sorts IsSmall Int32.sub numbers sub-IsOrder small))
      ∙ ap (λ n. value (n % 2 ^ 64)) (pairs-Perm k same) in
    ap (λ (m : Exec ℕ). if ltb 200001 (length numbers) then trap else m) counted
