-- ===== src/Clib/Qsort.antt =====
-- `qsort` of the C library, a parameter of the programs that call it, and what the standard says of it.
pub mod Insertion
pub mod Difference
use mathlib.Core.List.{Perm}
use good_command.Common.{◌≡◌, ◌⊎◌, false, List, [], ◌∷◌}
use good_command.Common.Int.{ℤ, pos, ltb_ℤ}
use good_command.Sorted.{All}

-- The comparison, and the array.
abbrev pub Sorter : Type 0 → Type 0
Sorter A = (A → A → ℤ) → List A → List A

-- The comparison does not put `a` behind `b`.
abbrev pub IsLe : {A : Type 0} → (A → A → ℤ) → A → A → Type 0
IsLe cmp a b = ltb_ℤ (pos 0) (cmp a b) ≡ false

-- The comparison is consistent on the elements with `P`.
pub record IsOrder {A : Type 0} (P : A → Type 0) (cmp : A → A → ℤ) : Type 0 where
  pub total : (a b : A) → P a → P b → IsLe cmp a b ⊎ IsLe cmp b a
  pub trans : (a b c : A) → P a → P b → P c → IsLe cmp a b → IsLe cmp b c → IsLe cmp a c

-- Each element may stand before all that follow it.
abbrev pub SortedBy : {A : Type 0} → (A → A → Type 0) → List A → Type 0
SortedBy R [] = Unit {0}
SortedBy R (x ∷ xs) = All (R x) xs × SortedBy R xs

-- A consistent comparison puts the array in order; no call adds or drops elements.
pub record IsQsort {A : Type 0} (qsort : Sorter A) : Type 1 where
  pub perm : (cmp : A → A → ℤ) (xs : List A) → Perm (qsort cmp xs) xs
  pub keeps : (cmp : A → A → ℤ) (P : A → Type 0) (xs : List A) → All P xs → All P (qsort cmp xs)
  pub sorts :
      (P : A → Type 0) (cmp : A → A → ℤ) (xs : List A)
      → IsOrder P cmp
      → All P xs
      → SortedBy (IsLe cmp) (qsort cmp xs)
