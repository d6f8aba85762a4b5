-- ===== src/Ring/Laws.antt =====
-- What the operations of linux_list.c do to a ring, and what a walk finds on it.
use mathlib.Core.Path.{subst}
use good_command.Common.{
  ℕ, zero, suc, ◌<◌, ◌≡◌, ◌≢◌, refl, sym, ap, inl, inr, true, false, List, [], ◌∷◌, arith, ◌==◌,
  Bool-cases, length, value, Yields,
}
use good_command.Common.Int.{ℤ}
use good_command.Ring.{
  Ptr, Memory, container_of, update, get_next, set_next, set_prev, list_add_between, list_add,
  walk_loop, walk_list,
}
use good_command.Ring.Chain.{
  among, Distinct, AllAllocated, Chain, IsRing, Chain-frame, first, next-first,
}

-- The memory after `list_add`.
abbrev pub added : (new head next : Ptr) → Memory → Memory
added new head next m = record m {
  next = update (update m.next new next) head new;
  prev = update (update m.prev next new) new head;
}

set_next-value :
    (p v : Ptr) (m : Memory)
    → m.allocated p ≡ true
    → set_next p v m ≡ value (record m { next = update m.next p v })
unfolding set_next
set_next-value p v m a = rw a refl

set_prev-value :
    (p v : Ptr) (m : Memory)
    → m.allocated p ≡ true
    → set_prev p v m ≡ value (record m { prev = update m.prev p v })
unfolding set_prev
set_prev-value p v m a = rw a refl

list_add-value :
    (new head : Ptr) (m : Memory)
    → m.allocated head ≡ true
    → m.allocated (m.next head) ≡ true
    → m.allocated new ≡ true
    → list_add new head m ≡ value (added new head (m.next head) m)
unfolding list_add get_next list_add_between
list_add-value new head m a b c =
    let next = m.next head in
    let m₁ : Memory = record m { prev = update m.prev next new } in
    let m₂ : Memory = record m₁ { next = update m.next new next } in
    let m₃ : Memory = record m₂ { prev = update m₁.prev new head } in
    rw
      (
        a,
        set_prev-value next new m b,
        set_next-value new next m₁ c,
        set_prev-value new head m₂ c,
        set_next-value head new m₃ a,
      )
      refl

pub among-ne : (p q : Ptr) (xs : List Ptr) → among q xs ≡ true → among p xs ≡ false → q ≢ p
among-ne p q xs h h' e = ground (arith, ap (λ z. among z xs) e)

-- `next` is the list head behind `head`.
added-Chain :
    (new head : Ptr) (xs : List Ptr) (m : Memory)
    → Chain m head xs head
    → Distinct (head ∷ xs)
    → among new (head ∷ xs) ≡ false
    → Chain (added new head (first xs head) m) head (new ∷ xs) head
added-Chain new head [] m c d fresh = ((ground arith, ground arith), (ground arith, ground arith))
added-Chain new head (x ∷ xs) m ((e, f), c) d fresh = (
  (ground arith, ground arith),
  (
    (ground arith, ground arith),
    Chain-frame m (added new head x m) x xs head
        (λ q h.
          ground (arith, among-ne head q (x ∷ xs) h d.0, among-ne new q (x ∷ xs) h (ground arith)))
        (λ q h. ground (
          arith,
          among-ne new q (head ∷ xs) h (ground arith),
          among-ne x q (head ∷ xs) h (ground (arith, d.0, d.1.0)),
        ))
        c,
  ),
)

first-allocated :
    (head : Ptr) (xs : List Ptr) (m : Memory) (p : Ptr)
    → p ≡ first xs head
    → AllAllocated m (head ∷ xs)
    → m.allocated p ≡ true
first-allocated head [] m p e all = all p (ground arith)
first-allocated head (x ∷ xs) m p e all = all p (ground arith)

-- A list head that is not on a ring is put in front of it; besides its links only the one from the head
-- and the one back from what followed the head change.
pub list_add-IsRing :
    (new head : Ptr) (xs : List Ptr) (m : Memory)
    → IsRing head xs m
    → among new (head ∷ xs) ≡ false
    → m.allocated new ≡ true
    → Yields
        (λ m'. IsRing head (new ∷ xs) m' × (m' ≡ added new head (m.next head) m))
        (list_add new head m)
list_add-IsRing new head xs m r fresh there =
    let next_first : m.next head ≡ first xs head = next-first m head xs head r.chain in
    rw
      (list_add-value new head m (r.allocated head (ground arith))
        (first-allocated head xs m (m.next head) next_first r.allocated) there)
      (
        record {
          chain =
              subst (λ p. Chain (added new head p m) head (new ∷ xs) head) (sym next_first)
                (added-Chain new head xs m r.chain r.distinct fresh);
          allocated = λ q h. elim (Bool-cases (q == new)) [
            | inl same ↦ let e : q ≡ new = ground arith in rw e there
            | inr other ↦ r.allocated q (ground arith)
          ];
          distinct = (ground (arith, fresh, r.distinct.0), (ground (arith, fresh), r.distinct.1));
        },
        refl,
      )

-- A walk comes to the nodes of the ring in their order.
abbrev pub visited : Memory → List Ptr → List (Ptr × ℤ)
visited m [] = []
visited m (x ∷ xs) = (container_of x, m.values (container_of x)) ∷ visited m xs

walk_loop-visited :
    (head a : Ptr) (xs : List Ptr) (rounds : ℕ) (m : Memory)
    → Chain m a xs head
    → AllAllocated m xs
    → among head xs ≡ false
    → length xs < rounds
    → walk_loop head rounds (m.next a) m ≡ value (visited m xs)
unfolding walk_loop get_next
walk_loop-visited head a xs zero m c all out lt = absurd (omega arith)
walk_loop-visited head a [] (suc rounds) m c all out lt =
    let e : (m.next a == head) ≡ true = ground (arith, c.0) in rw e refl
walk_loop-visited head a (x ∷ xs) (suc rounds) m c all out lt =
    let e : m.next a ≡ x = c.0.0 in
    let on : (x == head) ≡ false = ground arith in
    rw
      (
        e,
        on,
        all x (ground arith),
        walk_loop-visited head x xs rounds m c.1 (λ q h. all q (ground arith)) (ground arith)
            (omega arith),
      )
      refl

pub walk_list-visited :
    (head : Ptr) (xs : List Ptr) (rounds : ℕ) (m : Memory)
    → IsRing head xs m
    → length xs < rounds
    → walk_list rounds head m ≡ value (visited m xs)
unfolding walk_list get_next
walk_list-visited head xs rounds m r lt = rw (r.allocated head (ground arith)) (
    walk_loop-visited head head xs rounds m r.chain (λ q h. r.allocated q (ground arith))
      r.distinct.0 lt)
