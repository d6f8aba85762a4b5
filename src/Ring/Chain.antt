-- ===== src/Ring/Chain.antt =====
-- Chains of list heads, read in both directions.
use good_command.Common.{◌≡◌, ◌∙◌, Bool, true, false, ◌||◌, List, [], ◌∷◌, arith, ◌==◌}
use good_command.Ring.{Ptr, Memory}

abbrev pub among : Ptr → List Ptr → Bool
among q [] = false
among q (x ∷ xs) = q == x || among q xs

abbrev pub Distinct : List Ptr → Type 0
Distinct [] = Unit {0}
Distinct (x ∷ xs) = (among x xs ≡ false) × Distinct xs

abbrev pub AllAllocated : Memory → List Ptr → Type 0
AllAllocated m xs = (q : Ptr) → among q xs ≡ true → m.allocated q ≡ true

-- From `a` through `xs` to `b`.
abbrev pub Chain : Memory → Ptr → List Ptr → Ptr → Type 0
Chain m a [] b = (m.next a ≡ b) × (m.prev b ≡ a)
Chain m a (x ∷ xs) b = ((m.next a ≡ x) × (m.prev x ≡ a)) × Chain m x xs b

-- The circular list at `head` runs through `xs`, and no list head is on it twice.
pub record IsRing (head : Ptr) (xs : List Ptr) (m : Memory) : Type 0 where
  pub chain : Chain m head xs head
  pub allocated : AllAllocated m (head ∷ xs)
  pub distinct : Distinct (head ∷ xs)

-- A chain stays where its links stay.
pub Chain-frame :
    (m m' : Memory) (a : Ptr) (xs : List Ptr) (b : Ptr)
    → ((q : Ptr) → among q (a ∷ xs) ≡ true → m'.next q ≡ m.next q)
    → ((q : Ptr) → among q (b ∷ xs) ≡ true → m'.prev q ≡ m.prev q)
    → Chain m a xs b
    → Chain m' a xs b
Chain-frame m m' a [] b n p (e, f) = (n a (ground arith) ∙ e, p b (ground arith) ∙ f)
Chain-frame m m' a (x ∷ xs) b n p ((e, f), rest) = (
  (n a (ground arith) ∙ e, p x (ground arith) ∙ f),
  Chain-frame m m' x xs b (λ q h. n q (ground arith)) (λ q h. p q (ground arith)) rest,
)

-- Where a chain begins.
abbrev pub first : List Ptr → Ptr → Ptr
first [] b = b
first (x ∷ xs) b = x

pub next-first :
    (m : Memory) (a : Ptr) (xs : List Ptr) (b : Ptr) → Chain m a xs b → m.next a ≡ first xs b
next-first m a [] b c = c.0
next-first m a (x ∷ xs) b c = c.0.0
