-- ===== src/Ring/Build.antt =====
-- The ring that main of linux_list.c builds, and what a walk over it prints.
use mathlib.Core.Path.{subst}
use mathlib.Core.List.{reverse-cons}
use good_command.Common.{
  ℕ, ◌<◌, ◌≡◌, refl, sym, ap, ◌∙◌, true, false, List, [], ◌∷◌, ◌++◌, append-nil, append_assoc,
  arith, length, length-reverse, reverse, Exec, value, trap, no_fuel, ◌>>=◌, Yields, Yields-bind,
  Yields-mono,
}
use good_command.Ring.{
  Ptr, Memory, init_list_head, list_add, set_next, set_prev, walk_list, add_all,
}
use good_command.Ring.Chain.{among, Distinct, AllAllocated, IsRing}
use good_command.Ring.Laws.{among-ne, list_add-IsRing, visited, walk_list-visited}

pub init_list_head-IsRing :
    (head : Ptr) (m : Memory)
    → m.allocated head ≡ true
    → Yields
        (λ m'. IsRing head [] m' × (m'.values ≡ m.values) × (m'.allocated ≡ m.allocated))
        (init_list_head head m)
unfolding init_list_head set_next set_prev
init_list_head-IsRing head m a =
    rw (a, a)
      (
        record {
          chain = (ground arith, ground arith);
          allocated = λ q h. let e : q ≡ head = ground arith in rw e a;
          distinct = (refl, tt);
        },
        refl,
        refl,
      )

add_all-IsRing :
    (head : Ptr) (news xs : List Ptr) (m : Memory)
    → IsRing head xs m
    → Distinct news
    → ((q : Ptr) → among q news ≡ true → among q (head ∷ xs) ≡ false)
    → AllAllocated m news
    → Yields
        (λ m'. IsRing head (reverse news ++ xs) m' × (m'.values ≡ m.values))
        (add_all head news m)
unfolding add_all
add_all-IsRing head [] xs m r d apart all = (r, refl)
add_all-IsRing head (new ∷ news) xs m r d apart all =
    Yields-bind _ _ (list_add new head m) _
      (list_add-IsRing new head xs m r (apart new (ground arith)) (all new (ground arith)))
      (λ m' (r', e).
        let values : m'.values ≡ m.values = ap (λ (k : Memory). k.values) e in
        let places : m'.allocated ≡ m.allocated = ap (λ (k : Memory). k.allocated) e in
        let order : reverse news ++ new ∷ xs ≡ reverse (new ∷ news) ++ xs = sym (
          ap (λ ys. ys ++ xs) (reverse-cons new news)
          ∙ append_assoc (reverse news) (new ∷ []) xs) in
        Yields-mono _ _ (add_all head news m')
          (add_all-IsRing head news (new ∷ xs) m' r' d.1
            (λ q h. ground (arith, apart q (ground arith), among-ne new q news h d.0))
            (λ q h. ap (λ f. f q) places ∙ all q (ground arith)))
          (λ k (r'', same). (subst (λ ys. IsRing head ys k) order r'', same ∙ values)))

visited-eq : (m m' : Memory) (xs : List Ptr) → m'.values ≡ m.values → visited m' xs ≡ visited m xs
visited-eq m m' [] e = refl
visited-eq m m' (x ∷ xs) e = rw (e, visited-eq m m' xs e) refl

pub ends-value : {A : Type 0} (a : A) (m : Exec A) → Yields (λ b. b ≡ a) m → m ≡ value a
ends-value a (value b) e = ap value e
ends-value a trap h = absurd h
ends-value a no_fuel h = absurd h

-- When `malloc` returns distinct nodes, none of them the one of the head, the list that main builds by
-- INIT_LIST_HEAD and one list_add after the other is walked to its end, with more rounds than nodes: the
-- walk comes to every node once, the last one added first, with the value it was given.
add_all-visited :
    (head : Ptr) (news : List Ptr) (rounds : ℕ) (m : Memory)
    → m.allocated head ≡ true
    → AllAllocated m news
    → Distinct (head ∷ news)
    → length news < rounds
    → (init_list_head head m >>= add_all head news >>= walk_list rounds head)
      ≡ value (visited m (reverse news))
add_all-visited head news rounds m a all d lt = ends-value (visited m (reverse news)) _ (
    Yields-bind _ _ (init_list_head head m >>= add_all head news) _
      (Yields-bind _ _ (init_list_head head m) _ (init_list_head-IsRing head m a)
        (λ m₁ (r, values, places).
          Yields-mono _ (λ k. IsRing head (reverse news) k × (k.values ≡ m.values))
            (add_all head news m₁)
            (add_all-IsRing head news [] m₁ r d.1
              (λ q h. ground (arith, among-ne head q news h d.0))
              (λ q h. ap (λ f. f q) places ∙ all q h))
            (λ k (r', same).
              (subst (λ ys. IsRing head ys k) (append-nil (reverse news)) r', same ∙ values))))
      (λ k (r, same).
        rw (walk_list-visited head (reverse news) rounds k r (omega (arith, length-reverse news)))
          (visited-eq m k (reverse news) same)))
