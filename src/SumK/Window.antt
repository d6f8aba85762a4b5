-- ===== src/SumK/Window.antt =====
-- The loop of sumk.c over what is left of a sorted array.
use mathlib.Core.Path.{subst}
use good_command.Common.{
  ℕ, zero, suc, ◌+◌, ◌-◌, ◌%◌, ◌^◌, ◌≤◌, ◌<◌, ◌≡◌, refl, sym, ap, ◌∙◌, inl, inr, true, false,
  Bool-cases, List, [], ◌∷◌, ◌++◌, append_assoc, arith, ltb, length, length-append, get_or, value,
}
use good_command.Common.Int.{ℤ, pos, ◌+ℤ◌, ◌≤ℤ◌, ltb_ℤ}
use good_command.Clib.Int32
use good_command.Clib.Qsort.{SortedBy}
use good_command.Sorted.{All}
use good_command.SumK.{count_loop}
use good_command.Clib.Qsort.Difference.{IsSmall, Le}
use good_command.SumK.Pairs.{partners, pairs, pairs-snoc, partners_full, partners_none}

add-small : (x y : ℤ) → IsSmall x → IsSmall y → Int32.add x y ≡ x +ℤ y
unfolding Int32.add ◌+ℤ◌
add-small x y p q = Int32.to_int-eq_self (x +ℤ y) (ground arith)

get_or-middle :
    (before : List ℤ) (x : ℤ) (rest : List ℤ) (d : ℤ)
    → get_or (before ++ x ∷ rest) (length before) d ≡ x
get_or-middle [] x rest d = refl
get_or-middle (b ∷ before) x rest d = get_or-middle before x rest d

split_last : (y : ℤ) (ys : List ℤ) → (mid : List ℤ) × (z : ℤ) × (y ∷ ys ≡ mid ++ z ∷ [])
split_last y [] = ([], y, refl)
split_last y (x ∷ ys) = let (mid, z, e) = split_last x ys in (y ∷ mid, z, ap (λ t. y ∷ t) e)

All-append_left : (P : ℤ → Type 0) (xs ys : List ℤ) → All P (xs ++ ys) → All P xs
All-append_left P [] ys h = tt
All-append_left P (x ∷ xs) ys (p, h) = (p, All-append_left P xs ys h)

All-last : (P : ℤ → Type 0) (xs : List ℤ) (z : ℤ) → All P (xs ++ z ∷ []) → P z
All-last P [] z h = h.0
All-last P (x ∷ xs) z (p, h) = All-last P xs z h

-- In a sorted array no number is larger than the last one.
sorted_last : (xs : List ℤ) (z : ℤ) → SortedBy Le (xs ++ z ∷ []) → All (λ y. y ≤ℤ z) (xs ++ z ∷ [])
sorted_last [] z s = (omega arith, tt)
sorted_last (x ∷ xs) z (h, s) = (All-last (Le x) xs z h, sorted_last xs z s)

sorted_front : (xs : List ℤ) (z : ℤ) → SortedBy Le (xs ++ z ∷ []) → SortedBy Le xs
sorted_front [] z s = tt
sorted_front (x ∷ xs) z (h, s) = (All-append_left (Le x) xs (z ∷ []) h, sorted_front xs z s)

-- The numbers `w` from `i` to `j` are left, between `before` and `behind`.
pub record Window (a before w behind : List ℤ) (i j : ℕ) : Type 0 where
  pub parts : a ≡ before ++ (w ++ behind)
  pub at : i ≡ length before
  pub to : i + length w ≡ suc j
  pub small : All IsSmall w
  pub sorted : SortedBy Le w

module _ (a : List ℤ) (k : ℤ) where
  ends_at :
      (before mid behind : List ℤ) (x z : ℤ) (i j : ℕ)
      → Window a before (x ∷ (mid ++ z ∷ [])) behind i j
      → (get_or a i (pos 0) ≡ x) × (get_or a j (pos 0) ≡ z)
  ends_at before mid behind x z i j h =
      let last : a ≡ (before ++ x ∷ mid) ++ z ∷ behind =
        h.parts
        ∙ ap (λ t. before ++ x ∷ t) (append_assoc mid (z ∷ []) behind)
        ∙ sym (append_assoc before (x ∷ mid) (z ∷ behind)) in
      let place : j ≡ length (before ++ x ∷ mid) =
        omega (arith, h.at, h.to, length-append before (x ∷ mid), length-append mid (z ∷ [])) in
      (
        rw (h.parts, h.at) (get_or-middle before x ((mid ++ z ∷ []) ++ behind) (pos 0)),
        rw (last, place) (get_or-middle (before ++ x ∷ mid) z behind (pos 0)),
      )

  pub count_loop-pairs :
      (rounds i j count : ℕ) (before w behind : List ℤ)
      → Window a before w behind i j
      → 1 ≤ length w
      → length w ≤ rounds
      → count < 2 ^ 64
      → count_loop rounds a k i j count ≡ value ((count + pairs k w) % 2 ^ 64)
  unfolding count_loop
  count_loop-pairs zero i j count before w behind h some_number le lt = absurd (omega arith)
  count_loop-pairs (suc rounds) i j count before [] behind h some_number le lt =
      absurd (omega arith)
  count_loop-pairs (suc rounds) i j count before (x ∷ []) behind h some_number le lt =
      let met : ltb i j ≡ false = ground (arith, h.to) in rw met (ap value (omega arith))
  count_loop-pairs (suc rounds) i j count before (x ∷ y ∷ ys) behind h some_number le lt =
      let (mid, z, e) = split_last y ys in
      let h' : Window a before (x ∷ (mid ++ z ∷ [])) behind i j =
        subst (λ t. Window a before (x ∷ t) behind i j) e h in
      let apart : ltb i j ≡ true = ground (arith, h.to) in
      let (first, last) = ends_at before mid behind x z i j h' in
      let sum : Int32.add x z ≡ x +ℤ z =
        add-small x z h'.small.0 (All-last IsSmall mid z h'.small.1) in
      let size : length (mid ++ z ∷ []) ≡ suc (length ys) = sym (ap length e) in
      subst
        (λ t. count_loop (suc rounds) a k i j count ≡ value ((count + pairs k (x ∷ t)) % 2 ^ 64))
        (sym e)
        (rw (apart, first, last, sum)
          (elim (Bool-cases (ltb_ℤ k (x +ℤ z))) [
            | inl large ↦
                let none_fit : partners k z (x ∷ mid) ≡ 0 =
                  partners_none k x z (x ∷ mid)
                    (omega arith, All-append_left (Le x) mid (z ∷ []) h'.sorted.0) large in
                let split = pairs-snoc k z (x ∷ mid) in
                rw large (
                  count_loop-pairs rounds i (j - 1) count before (x ∷ mid) (z ∷ behind)
                    record {
                      parts =
                          h'.parts ∙ ap (λ t. before ++ x ∷ t) (append_assoc mid (z ∷ []) behind);
                      at = h'.at;
                      to = omega (arith, h'.to, length-append mid (z ∷ []));
                      small = (h'.small.0, All-append_left IsSmall mid (z ∷ []) h'.small.1);
                      sorted = sorted_front (x ∷ mid) z h'.sorted;
                    }
                    (omega arith) (omega (arith, size, length-append mid (z ∷ []))) lt
                  ∙ ap value (omega (arith, none_fit, split)))
            | inr all_fit ↦
                let number : partners k x (mid ++ z ∷ []) ≡ length (mid ++ z ∷ []) =
                  partners_full k x z (mid ++ z ∷ []) (sorted_last mid z h'.sorted.1) all_fit in
                rw all_fit (
                  count_loop-pairs rounds (i + 1) j ((count + (j - i)) % 2 ^ 64) (before ++ x ∷ [])
                    (mid ++ z ∷ []) behind
                    record {
                      parts =
                          h'.parts ∙ sym (append_assoc before (x ∷ []) ((mid ++ z ∷ []) ++ behind));
                      at = omega (arith, h'.at, length-append before (x ∷ []));
                      to = omega (arith, h'.to);
                      small = h'.small.1;
                      sorted = h'.sorted.1;
                    }
                    (omega (arith, size)) (omega (arith, size)) (omega arith)
                  ∙ ap value (omega (arith, number, h'.to)))
          ]))
