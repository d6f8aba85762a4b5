-- ===== src/SumK/Pairs.antt =====
-- The pairs of a list whose sum is at most `k`.
use mathlib.Core.List.{Perm, Permᴰ}
use mathlib.Core.Logic.{∥∥₁_elim}
use native.Mathlib.Nat.{ℕ_set}
use good_command.Common.{
  ℕ, ◌+◌, ◌≡◌, refl, ap, ◌∙◌, true, false, List, [], ◌∷◌, ◌++◌, arith, length, if◌then◌else◌,
}
use good_command.Common.Int.{ℤ, ◌+ℤ◌, ◌≤ℤ◌, ltb_ℤ}
use good_command.Sorted.{All}

abbrev pub fits : ℤ → ℤ → ℤ → ℕ
fits k x y = if ltb_ℤ k (x +ℤ y) then 0 else 1

-- The partners of `x` in the list, and the pairs of the list.
abbrev pub partners : ℤ → ℤ → List ℤ → ℕ
partners k x [] = 0
partners k x (y ∷ ys) = fits k x y + partners k x ys

abbrev pub pairs : ℤ → List ℤ → ℕ
pairs k [] = 0
pairs k (x ∷ xs) = partners k x xs + pairs k xs

fits_comm : (k x y : ℤ) → fits k x y ≡ fits k y x
unfolding ◌+ℤ◌
fits_comm k x y = ground arith

partners-snoc :
    (k x y : ℤ) (xs : List ℤ) → partners k x (xs ++ y ∷ []) ≡ partners k x xs + fits k x y
partners-snoc k x y [] = omega arith
partners-snoc k x y (z ∷ xs) = omega (arith, partners-snoc k x y xs)

-- A number behind the others.
pub pairs-snoc : (k y : ℤ) (xs : List ℤ) → pairs k (xs ++ y ∷ []) ≡ pairs k xs + partners k y xs
pairs-snoc k y [] = refl
pairs-snoc k y (x ∷ xs) = omega (arith, pairs-snoc k y xs, partners-snoc k x y xs, fits_comm k x y)

-- If `x` and the last number have a small sum, so has `x` with all.
pub partners_full :
    (k x z : ℤ) (ys : List ℤ)
    → All (λ y. y ≤ℤ z) ys
    → ltb_ℤ k (x +ℤ z) ≡ false
    → partners k x ys ≡ length ys
unfolding ◌+ℤ◌
partners_full k x z [] le h = refl
partners_full k x z (y ∷ ys) (le, les) h =
    let one : fits k x y ≡ 1 = ground (arith, le, h) in
    omega (arith, one, partners_full k x z ys les h)

-- If the first number and `z` have a large sum, so has `z` with all.
pub partners_none :
    (k x z : ℤ) (ys : List ℤ) → All (λ y. x ≤ℤ y) ys → ltb_ℤ k (x +ℤ z) ≡ true → partners k z ys ≡ 0
unfolding ◌+ℤ◌
partners_none k x z [] le h = refl
partners_none k x z (y ∷ ys) (le, les) h =
    let none_fits : fits k z y ≡ 0 = ground (arith, le, h) in
    omega (arith, none_fits, partners_none k x z ys les h)

partners-Permᴰ : (k x : ℤ) {xs ys : List ℤ} → Permᴰ xs ys → partners k x xs ≡ partners k x ys
partners-Permᴰ k x Permᴰ.nil = refl
partners-Permᴰ k x (Permᴰ.cons {a} {b} {l₁} {l₂} e d) = rw e (omega (arith, partners-Permᴰ k x d))
partners-Permᴰ k x (Permᴰ.swap {a} {b} {a'} {b'} {l} e₁ e₂) = rw (e₁, e₂) (omega arith)
partners-Permᴰ k x (Permᴰ.trans d₁ d₂) = partners-Permᴰ k x d₁ ∙ partners-Permᴰ k x d₂

pairs-Permᴰ : (k : ℤ) {xs ys : List ℤ} → Permᴰ xs ys → pairs k xs ≡ pairs k ys
pairs-Permᴰ k Permᴰ.nil = refl
pairs-Permᴰ k (Permᴰ.cons {a} {b} {l₁} {l₂} e d) =
    rw e (omega (arith, partners-Permᴰ k b d, pairs-Permᴰ k d))
pairs-Permᴰ k (Permᴰ.swap {a} {b} {a'} {b'} {l} e₁ e₂) =
    let swapped : fits k a b ≡ fits k a' b' = rw (e₁, e₂) (fits_comm k b' a') in
    omega (arith, swapped, ap (λ z. partners k z l) e₁, ap (λ z. partners k z l) e₂)
pairs-Permᴰ k (Permᴰ.trans d₁ d₂) = pairs-Permᴰ k d₁ ∙ pairs-Permᴰ k d₂

-- The order of the numbers does not matter.
pub pairs-Perm : (k : ℤ) {xs ys : List ℤ} → Perm xs ys → pairs k xs ≡ pairs k ys
pairs-Perm k p = ∥∥₁_elim p (ℕ_set _ _) (pairs-Permᴰ k)
