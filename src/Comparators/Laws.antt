-- ===== src/Comparators/Laws.antt =====
-- The orders that the two comparisons of qsort.c stand for.
use mathlib.Core.List.{Perm}
use good_command.Common.{ℕ, ◌≡◌, sym, ◌∙◌, inl, inr, List, [], ◌∷◌, arith}
use good_command.Common.Int.{ℤ, pos, ◌-ℤ◌, ltb_ℤ}
use good_command.Clib.Int32
use good_command.Clib.Bytes.Text.{NoNul}
use good_command.Clib.Qsort.{Sorter, IsLe, IsOrder, SortedBy, IsQsort}
use good_command.Clib.Qsort.Difference.{IsSmall, Le, sub-IsOrder, Le-sorted}
use good_command.Clib.Strcmp.{strcmp, LexLe, LexLe-total, LexLe-trans, strcmp-LexLe, LexLe-strcmp}
use good_command.Sorted.{All}
use good_command.Comparators.{sort_function_str, sort_function_int, sort_words, sort_numbers}

minus_sign : (v : ℤ) → ltb_ℤ v (pos 0) ≡ ltb_ℤ (pos 0) (pos 0 -ℤ v)
unfolding ◌-ℤ◌
minus_sign v = ground arith

-- The order of the dictionary, backwards.
str-LexLe : (s t : List ℕ) → NoNul t → IsLe sort_function_str s t → LexLe t s
unfolding sort_function_str
str-LexLe s t n h = strcmp-LexLe s t n (minus_sign (strcmp s t) ∙ h)

LexLe-str : (s t : List ℕ) → LexLe t s → IsLe sort_function_str s t
unfolding sort_function_str
LexLe-str s t le = sym (minus_sign (strcmp s t)) ∙ LexLe-strcmp s t le

str-IsOrder : IsOrder NoNul sort_function_str
str-IsOrder = record {
  total = λ s t p q. elim (LexLe-total s t) [
    | inl le ↦ inr (LexLe-str t s le)
    | inr ge ↦ inl (LexLe-str s t ge)
  ];
  trans = λ s t u p q r le le'.
      LexLe-str s u (LexLe-trans u t s (str-LexLe t u r le') (str-LexLe s t q le));
}

-- `s` comes behind `t` in a dictionary, or is the same.
abbrev pub LexGe : List ℕ → List ℕ → Type 0
LexGe s t = LexLe t s

LexGe-All :
    (s : List ℕ) (ws : List (List ℕ))
    → All NoNul ws
    → All (IsLe sort_function_str s) ws
    → All (LexGe s) ws
LexGe-All s [] n h = tt
LexGe-All s (t ∷ ws) n h = (str-LexLe s t n.0 h.0, LexGe-All s ws n.1 h.1)

LexGe-sorted :
    (ws : List (List ℕ)) → All NoNul ws → SortedBy (IsLe sort_function_str) ws → SortedBy LexGe ws
LexGe-sorted [] n h = tt
LexGe-sorted (s ∷ ws) n h = (LexGe-All s ws n.1 h.0, LexGe-sorted ws n.1 h.1)

-- With a `qsort` as the C standard describes it, the words, of which none holds a NUL, are put in the
-- order of a dictionary backwards, and the numbers, if they are below 2 ^ 30 in size, in ascending
-- order; none is lost or added.
pub sorts-SortedBy :
    (qsort_words : Sorter (List ℕ)) (qsort_numbers : Sorter ℤ) (list : List (List ℕ)) (ar : List ℤ)
    → IsQsort qsort_words
    → IsQsort qsort_numbers
    → All NoNul list
    → All IsSmall ar
    → (SortedBy LexGe (sort_words qsort_words list) × Perm (sort_words qsort_words list) list)
      × (SortedBy Le (sort_numbers qsort_numbers ar) × Perm (sort_numbers qsort_numbers ar) ar)
unfolding sort_words sort_numbers sort_function_int
sorts-SortedBy qsort_words qsort_numbers list ar std std' clean small = (
  (
    LexGe-sorted (qsort_words sort_function_str list) (std.keeps sort_function_str NoNul list clean)
        (std.sorts NoNul sort_function_str list str-IsOrder clean),
    std.perm sort_function_str list,
  ),
  (
    Le-sorted (qsort_numbers sort_function_int ar) (std'.keeps sort_function_int IsSmall ar small)
        (std'.sorts IsSmall Int32.sub ar sub-IsOrder small),
    std'.perm sort_function_int ar,
  ),
)
