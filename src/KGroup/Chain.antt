-- ===== src/KGroup/Chain.antt =====
-- Chains of nodes: which addresses they run through, and what a write leaves of them.
use mathlib.Core.Bool.{or_assoc}
use good_command.Common.{◌≡◌, ◌≢◌, refl, Bool, true, false, ◌||◌, List, [], ◌∷◌, ◌++◌, arith, ◌==◌}
use good_command.Common.Int.{ℤ}
use good_command.KGroup.Heap.{Ptr, null, ListNode, Heap, write, Holds, Holds-write_other}

-- Address and value of each node, in order.
abbrev pub Cells : Type 0
Cells = List (Ptr × ℤ)

abbrev pub occurs : Ptr → Cells → Bool
occurs a [] = false
occurs a (c ∷ cs) = a == c.0 || occurs a cs

-- The address at which the chain `cs` begins, if it is followed by `stop`.
abbrev pub first : Cells → Ptr → Ptr
first [] stop = stop
first (c ∷ cs) stop = c.0

-- The nodes of `cs` lead from one to the next, and the last one to `stop`.
abbrev pub Linked : Heap → Cells → Ptr → Type 0
Linked h [] stop = Unit {0}
Linked h (c ∷ cs) stop = Holds h c.0 c.1 (first cs stop) × Linked h cs stop

abbrev pub Distinct : Cells → Type 0
Distinct [] = Unit {0}
Distinct (c ∷ cs) = (occurs c.0 cs ≡ false) × Distinct cs

-- `g` differs from `h` at most at the addresses of `cs`.
abbrev pub SameOutside : Cells → Heap → Heap → Type 0
SameOutside cs h g = (a : Ptr) → occurs a cs ≡ false → g a ≡ h a

pub ne_of_not_in : (b : Ptr) (c : Ptr × ℤ) (cs : Cells) → occurs b (c ∷ cs) ≡ false → b ≢ c.0
ne_of_not_in b c cs h = ground arith

pub not_in_rest :
    (b : Ptr) (c : Ptr × ℤ) (cs : Cells) → occurs b (c ∷ cs) ≡ false → occurs b cs ≡ false
not_in_rest b c cs h = ground arith

pub occurs-append : (b : Ptr) (cs ds : Cells) → occurs b (cs ++ ds) ≡ (occurs b cs || occurs b ds)
occurs-append b [] ds = refl
occurs-append b (c ∷ cs) ds = rw (occurs-append b cs ds, or_assoc)

pub not_in-left : (a : Ptr) (xs ys : Cells) → occurs a (xs ++ ys) ≡ false → occurs a xs ≡ false
not_in-left a xs ys h = ground (arith, occurs-append a xs ys)

pub not_in-right : (a : Ptr) (xs ys : Cells) → occurs a (xs ++ ys) ≡ false → occurs a ys ≡ false
not_in-right a [] ys h = h
not_in-right a (x ∷ xs) ys h = not_in-right a xs ys (ground arith)

pub first-append : (xs ys : Cells) (stop : Ptr) → first (xs ++ ys) stop ≡ first xs (first ys stop)
first-append [] ys stop = refl
first-append (x ∷ xs) ys stop = refl

module _ (h : Heap) where
  pub Linked-append :
      (xs ys : Cells) (stop : Ptr)
      → Linked h xs (first ys stop)
      → Linked h ys stop
      → Linked h (xs ++ ys) stop
  Linked-append [] ys stop l m = m
  Linked-append (x ∷ xs) ys stop (e, l) m =
      (rw (first-append xs ys stop) e, Linked-append xs ys stop l m)

  pub Linked-split :
      (xs ys : Cells) (stop : Ptr)
      → Linked h (xs ++ ys) stop
      → Linked h xs (first ys stop) × Linked h ys stop
  Linked-split [] ys stop l = (tt, l)
  Linked-split (x ∷ xs) ys stop (e, l) =
      let (l', m) = Linked-split xs ys stop l in ((rw (first-append xs ys stop) at e, l'), m)

  pub Linked-write :
      (xs : Cells) (stop a : Ptr) (n : ListNode)
      → occurs a xs ≡ false
      → Linked h xs stop
      → Linked (write h a n) xs stop
  Linked-write [] stop a n out l = tt
  Linked-write (x ∷ xs) stop a n out (e, l) =
      (Holds-write_other e a n (ground arith), Linked-write xs stop a n (ground arith) l)

  pub Linked-frame :
      {g : Heap} (xs ws : Cells) (stop : Ptr)
      → SameOutside ws h g
      → ((a : Ptr) → occurs a xs ≡ true → occurs a ws ≡ false)
      → Linked h xs stop
      → Linked g xs stop
  Linked-frame [] ws stop same apart l = tt
  Linked-frame (x ∷ xs) ws stop same apart (e, l) = (
    record { ne_null = e.ne_null; holds = ground (arith, same x.0, apart x.0, e.holds) },
    Linked-frame xs ws stop same (λ a i. apart a (ground arith)) l,
  )

-- No node stands at NULL.
pub Linked-not_null :
    (h : Heap) (cs : Cells) (stop : Ptr) → Linked h cs stop → occurs null cs ≡ false
Linked-not_null h [] stop l = refl
Linked-not_null h (c ∷ cs) stop (e, l) = ground (arith, e.ne_null, Linked-not_null h cs stop l)
