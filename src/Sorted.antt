-- ===== src/Sorted.antt =====
-- Sorted lists of integers, and two of them put into one.
use mathlib.Core.List.{Perm, perm_middle}
use mathlib.Core.List.Perm
use good_command.Common.{length, get_or, zero, suc, ◌<◌, ℕ, ◌+◌, ◌≡◌, List, [], ◌∷◌, ◌++◌, arith}
use good_command.Common.Int.{ℤ, ◌≤ℤ◌}

-- `x` may stand before the list.
abbrev pub Before : ℤ → List ℤ → Type 0
Before x [] = Unit {0}
Before x (y ∷ ys) = x ≤ℤ y

abbrev pub Sorted : List ℤ → Type 0
Sorted [] = Unit {0}
Sorted (x ∷ xs) = Before x xs × Sorted xs

abbrev pub All : {A : Type 0} → (A → Type 0) → List A → Type 0
All P [] = Unit {0}
All P (x ∷ xs) = P x × All P xs

-- The third list takes from the first two, always an element that may stand before the other list.
pub data Merge : List ℤ → List ℤ → List ℤ → Type 0 where
  done : Merge [] [] []
  left : {x : ℤ} {xs ys zs : List ℤ} → Before x ys → Merge xs ys zs → Merge (x ∷ xs) ys (x ∷ zs)
  right : {y : ℤ} {xs ys zs : List ℤ} → Before y xs → Merge xs ys zs → Merge xs (y ∷ ys) (y ∷ zs)

Merge-Before :
    (a : ℤ) {xs ys zs : List ℤ} → Merge xs ys zs → Before a xs → Before a ys → Before a zs
Merge-Before a done p q = tt
Merge-Before a (left b m) p q = p
Merge-Before a (right b m) p q = q

pub Merge-Sorted : {xs ys zs : List ℤ} → Merge xs ys zs → Sorted xs → Sorted ys → Sorted zs
Merge-Sorted done s t = tt
Merge-Sorted (left {x} c m) (b, s) t = (Merge-Before x m b c, Merge-Sorted m s t)
Merge-Sorted (right {y} c m) s (b, t) = (Merge-Before y m c b, Merge-Sorted m s t)

pub Merge-Perm : {xs ys zs : List ℤ} → Merge xs ys zs → Perm zs (xs ++ ys)
Merge-Perm done = Perm.nil
Merge-Perm (left {x} b m) = Perm.cons x (Merge-Perm m)
Merge-Perm (right {y} {xs} {ys} b m) =
    Perm.trans (Perm.cons y (Merge-Perm m)) (Perm.symm (perm_middle xs ys))

pub Merge-All :
    (P : ℤ → Type 0) {xs ys zs : List ℤ} → Merge xs ys zs → All P xs → All P ys → All P zs
Merge-All P done p q = tt
Merge-All P (left b m) (x, p) q = (x, Merge-All P m p q)
Merge-All P (right b m) p (y, q) = (y, Merge-All P m p q)

pub Merge-length : {xs ys zs : List ℤ} → Merge xs ys zs → length zs ≡ length xs + length ys
Merge-length done = omega arith
Merge-length (left b m) = omega (arith, Merge-length m)
Merge-length (right b m) = omega (arith, Merge-length m)

pub All-get_or :
    (P : ℤ → Type 0) (xs : List ℤ) (i : ℕ) (d : ℤ) → All P xs → i < length xs → P (get_or xs i d)
All-get_or P [] i d h lt = absurd (omega arith)
All-get_or P (x ∷ xs) zero d (p, h) lt = p
All-get_or P (x ∷ xs) (suc i) d (p, h) lt = All-get_or P xs i d h (omega arith)
