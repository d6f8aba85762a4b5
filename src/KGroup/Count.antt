-- ===== src/KGroup/Count.antt =====
-- How often an address stands in a chain: distinct addresses, whatever the order of the nodes.
use mathlib.Core.List.{reverse_aux}
use good_command.Common.{
  ℕ, ◌+◌, ◌≤◌, ◌≡◌, refl, true, false, [], ◌∷◌, ◌++◌, arith, ◌==◌, if◌then◌else◌, reverse,
}
use good_command.KGroup.Heap.{Ptr}
use good_command.KGroup.Chain.{Cells, occurs, Distinct}

unfoldable pub count : Ptr → Cells → ℕ
count a [] = 0
count a (c ∷ cs) = (if a == c.0 then 1 else 0) + count a cs

abbrev pub Once : Cells → Type 0
Once cs = (a : Ptr) → count a cs ≤ 1

pub count-append : (a : Ptr) (xs ys : Cells) → count a (xs ++ ys) ≡ count a xs + count a ys
unfolding count
count-append b [] ds = omega arith
count-append b (c ∷ cs) ds = omega (arith, count-append b cs ds)

count-reverse_aux :
    (a : Ptr) (xs ys : Cells) → count a (reverse_aux xs ys) ≡ count a xs + count a ys
unfolding count
count-reverse_aux a [] ys = omega arith
count-reverse_aux a (x ∷ xs) ys = omega (arith, count-reverse_aux a xs (x ∷ ys))

pub count-reverse : (a : Ptr) (xs : Cells) → count a (reverse xs) ≡ count a xs
unfolding count
count-reverse a xs = omega (arith, count-reverse_aux a xs [])

pub occurs-count : (a : Ptr) (cs : Cells) → count a cs ≡ 0 → occurs a cs ≡ false
unfolding count
occurs-count a [] h = refl
occurs-count a (c ∷ cs) h = ground (arith, occurs-count a cs)

pub count-occurs : (a : Ptr) (cs : Cells) → occurs a cs ≡ true → 1 ≤ count a cs
unfolding count
count-occurs a [] h = cc
count-occurs a (c ∷ cs) h = ground (arith, count-occurs a cs)

pub count-not_in : (a : Ptr) (cs : Cells) → occurs a cs ≡ false → count a cs ≡ 0
unfolding count
count-not_in a [] h = refl
count-not_in a (c ∷ cs) h = ground (arith, count-not_in a cs)

pub Once-Distinct : (cs : Cells) → Once cs → Distinct cs
unfolding count
Once-Distinct [] h = tt
Once-Distinct (c ∷ cs) h =
    (occurs-count c.0 cs (ground (arith, h c.0)), Once-Distinct cs (λ a. omega (arith, h a)))

pub Distinct-Once : (cs : Cells) → Distinct cs → Once cs
unfolding count
Distinct-Once [] d a = omega arith
Distinct-Once (c ∷ cs) (out, d) a = ground (arith, count-not_in c.0 cs out, Distinct-Once cs d a)

-- Two parts of a chain of distinct addresses share none.
pub Once-apart :
    (xs ys : Cells) (a : Ptr) → Once (xs ++ ys) → occurs a xs ≡ true → occurs a ys ≡ false
Once-apart xs ys a h i =
    occurs-count a ys (omega (arith, h a, count-append a xs ys, count-occurs a xs i))

pub Once-apart_right :
    (xs ys : Cells) (a : Ptr) → Once (xs ++ ys) → occurs a ys ≡ true → occurs a xs ≡ false
Once-apart_right xs ys a h i =
    occurs-count a xs (omega (arith, h a, count-append a xs ys, count-occurs a ys i))

pub Once-left : (xs ys : Cells) → Once (xs ++ ys) → Once xs
Once-left xs ys h a = omega (arith, h a, count-append a xs ys)

pub Once-right : (xs ys : Cells) → Once (xs ++ ys) → Once ys
Once-right xs ys h a = omega (arith, h a, count-append a xs ys)
