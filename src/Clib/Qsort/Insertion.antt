-- ===== src/Clib/Qsort/Insertion.antt =====
-- A sort by insertion, which is one `qsort`.
use mathlib.Core.Bool.{true≢false}
use mathlib.Core.List.{Perm}
use mathlib.Core.List.Perm
use good_command.Common.{inl, inr, List, [], ◌∷◌, Bool-cases, if◌then◌else◌, sym, ◌∙◌}
use good_command.Common.Int.{ℤ, pos, ltb_ℤ}
use good_command.Sorted.{All}
use good_command.Clib.Qsort.{Sorter, IsLe, IsOrder, SortedBy, IsQsort}

module _ {A : Type 0} where
  abbrev pub place : (A → A → ℤ) → A → List A → List A
  place cmp x [] = x ∷ []
  place cmp x (y ∷ ys) =
      let later = y ∷ place cmp x ys in if ltb_ℤ (pos 0) (cmp x y) then later else x ∷ y ∷ ys

  abbrev pub insertion_sort : Sorter A
  insertion_sort cmp [] = []
  insertion_sort cmp (x ∷ xs) = place cmp x (insertion_sort cmp xs)

  module _ (cmp : A → A → ℤ) where
    place-Perm : (x : A) (ys : List A) → Perm (place cmp x ys) (x ∷ ys)
    place-Perm x [] = Perm.rfl
    place-Perm x (y ∷ ys) = elim (Bool-cases (ltb_ℤ (pos 0) (cmp x y))) [
      | inl behind ↦ rw behind (Perm.trans (Perm.cons y (place-Perm x ys)) (Perm.swap x y ys))
      | inr before ↦ rw before Perm.rfl
    ]

    insertion_sort-Perm : (xs : List A) → Perm (insertion_sort cmp xs) xs
    insertion_sort-Perm [] = Perm.nil
    insertion_sort-Perm (x ∷ xs) =
        Perm.trans (place-Perm x (insertion_sort cmp xs)) (Perm.cons x (insertion_sort-Perm xs))

    place-All : (Q : A → Type 0) (x : A) (ys : List A) → Q x → All Q ys → All Q (place cmp x ys)
    place-All Q x [] q h = (q, tt)
    place-All Q x (y ∷ ys) q h = elim (Bool-cases (ltb_ℤ (pos 0) (cmp x y))) [
      | inl behind ↦ rw behind (h.0, place-All Q x ys q h.1)
      | inr before ↦ rw before (q, h)
    ]

    insertion_sort-All : (Q : A → Type 0) (xs : List A) → All Q xs → All Q (insertion_sort cmp xs)
    insertion_sort-All Q [] h = tt
    insertion_sort-All Q (x ∷ xs) h =
        place-All Q x (insertion_sort cmp xs) h.0 (insertion_sort-All Q xs h.1)

    module _ (P : A → Type 0) (order : IsOrder P cmp) where
      All-trans :
          (x y : A) (ys : List A)
          → P x
          → P y
          → All P ys
          → IsLe cmp x y
          → All (IsLe cmp y) ys
          → All (IsLe cmp x) ys
      All-trans x y [] p q ps le h = tt
      All-trans x y (z ∷ ys) p q ps le h =
          (order.trans x y z p q ps.0 le h.0, All-trans x y ys p q ps.1 le h.1)

      place-SortedBy :
          (x : A) (ys : List A)
          → P x
          → All P ys
          → SortedBy (IsLe cmp) ys
          → SortedBy (IsLe cmp) (place cmp x ys)
      place-SortedBy x [] p ps s = (tt, tt)
      place-SortedBy x (y ∷ ys) p ps s = elim (Bool-cases (ltb_ℤ (pos 0) (cmp x y))) [
        | inl behind ↦
            let le : IsLe cmp y x = elim (order.total x y p ps.0) [
              | inl le ↦ absurd (true≢false (sym behind ∙ le))
              | inr ge ↦ ge
            ] in
            rw behind (place-All (IsLe cmp y) x ys le s.0, place-SortedBy x ys p ps.1 s.1)
        | inr before ↦ rw before ((before, All-trans x y ys p ps.0 ps.1 before s.0), s)
      ]

      insertion_sort-SortedBy :
          (xs : List A) → All P xs → SortedBy (IsLe cmp) (insertion_sort cmp xs)
      insertion_sort-SortedBy [] h = tt
      insertion_sort-SortedBy (x ∷ xs) h =
          place-SortedBy x (insertion_sort cmp xs) h.0 (insertion_sort-All P xs h.1)
            (insertion_sort-SortedBy xs h.1)

  pub insertion_sort-IsQsort : IsQsort insertion_sort
  insertion_sort-IsQsort = record {
    perm = insertion_sort-Perm;
    keeps = insertion_sort-All;
    sorts = λ P cmp xs order h. insertion_sort-SortedBy cmp P order xs h;
  }
