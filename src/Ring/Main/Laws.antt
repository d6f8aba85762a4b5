-- ===== src/Ring/Main/Laws.antt =====
-- What `main` of linux_list.c prints.
use mathlib.Core.Path.{subst}
use mathlib.Core.List.{reverse-cons}
use good_command.Common.{
  ℕ, zero, suc, ◌%◌, ◌<◌, ◌≡◌, refl, sym, ap, ◌∙◌, true, false, List, [], ◌∷◌, ◌++◌, map,
  append-nil, append_assoc, arith, ◌==◌, ==_refl, if◌then◌else◌, length, length-map, length-reverse,
  reverse, Exec, value, ◌>>=◌, >>=_congr, Yields, Yields-bind,
}
use good_command.Common.Int.{ℤ, pos}
use good_command.Ring.{
  Ptr, Memory, container_of, get_next, init_list_head, list_add, walk_loop, walk_list,
}
use good_command.Ring.Chain.{among, Distinct, AllAllocated, IsRing}
use good_command.Ring.Laws.{among-ne, visited, walk_list-visited, list_add-IsRing}
use good_command.Ring.Build.{init_list_head-IsRing, ends-value}
use good_command.Ring.Main.{
  entry_loop, walk_list_list_entry, for_each_loop, walk_list_for_each, list_of, set_value,
  fill_loop, main,
}

-- The three loops differ in how they are written.
loops-walk_loop :
    (head : Ptr) (rounds : ℕ) (ptr : Ptr) (m : Memory)
    → (entry_loop head rounds ptr m ≡ walk_loop head rounds ptr m)
      × (for_each_loop head rounds ptr m ≡ walk_loop head rounds ptr m)
unfolding entry_loop for_each_loop walk_loop
loops-walk_loop head zero ptr m = (refl, refl)
loops-walk_loop head (suc rounds) ptr m = (
  ap
      (λ (f : Ptr → Exec (List (Ptr × ℤ))). if ptr == head then value [] else do
        next ← get_next ptr m
        rest ← f next
        value ((container_of ptr, m.values (container_of ptr)) ∷ rest))
      (λ i next. (loops-walk_loop head rounds next m).0 i),
  ap
      (λ (f : Ptr → Exec (List (Ptr × ℤ))). if ptr == head then value [] else do
        next ← get_next ptr m
        rest ← f next
        value ((container_of ptr, m.values (container_of ptr)) ∷ rest))
      (λ i next. (loops-walk_loop head rounds next m).1 i),
)

-- On any memory, the three walks end the same way, and print the same.
pub walks-walk_list :
    (rounds : ℕ) (head : Ptr) (m : Memory)
    → (walk_list_list_entry rounds head m ≡ walk_list rounds head m)
      × (walk_list_for_each rounds head m ≡ walk_list rounds head m)
unfolding walk_list_list_entry walk_list_for_each walk_list
walks-walk_list rounds head m = (
  >>=_congr (get_next head m) (λ ptr. (loops-walk_loop head rounds ptr m).0),
  >>=_congr (get_next head m) (λ ptr. (loops-walk_loop head rounds ptr m).1),
)

-- The list heads of the nodes, and the values that are stored.
abbrev heads : List (Ptr × ℤ) → List Ptr
heads cs = map (λ c. list_of c.0) cs

abbrev Valued : Memory → List (Ptr × ℤ) → Type 0
Valued m [] = Unit {0}
Valued m (c ∷ cs) = (m.values c.0 ≡ c.1) × Valued m cs

Valued-visited : (m : Memory) (cs : List (Ptr × ℤ)) → Valued m cs → visited m (heads cs) ≡ cs
unfolding container_of
Valued-visited m [] v = refl
Valued-visited m (c ∷ cs) (e, v) =
    let same : container_of (list_of c.0) ≡ c.0 = omega arith in
    rw (same, e, Valued-visited m cs v) refl

Valued-set :
    (m : Memory) (cs : List (Ptr × ℤ)) (t : Ptr) (v : ℤ)
    → among (list_of t) (heads cs) ≡ false
    → Valued m cs
    → Valued (record m { values = λ q. if q == t then v else m.values q }) cs
Valued-set m [] t v out h = tt
Valued-set m (c ∷ cs) t v out (e, h) =
    let other : (c.0 == t) ≡ false = ground (arith, out) in
    (rw other e, Valued-set m cs t v (ground (arith, out)) h)

-- The values of the memory are not touched by the links.
Valued-same :
    (m m' : Memory) (cs : List (Ptr × ℤ)) → m'.values ≡ m.values → Valued m cs → Valued m' cs
Valued-same m m' cs e v = rw e v

-- What is printed for a round of the loop.
abbrev pub cell : Ptr × ℕ → Ptr × ℤ
cell news = (news.0, pos (news.1 % 100))

set_value-value :
    (t : Ptr) (v : ℤ) (m : Memory)
    → m.allocated (list_of t) ≡ true
    → set_value t v m ≡ value (record m { values = λ q. if q == t then v else m.values q })
unfolding set_value
set_value-value t v m h = rw h refl

fill_loop-cells :
    (head : Ptr) (news : List (Ptr × ℕ)) (cs : List (Ptr × ℤ)) (m : Memory)
    → IsRing head (heads cs) m
    → Valued m cs
    → Distinct (heads (map cell news))
    → ((q : Ptr) → among q (heads (map cell news)) ≡ true → among q (head ∷ heads cs) ≡ false)
    → AllAllocated m (heads (map cell news))
    → Yields
        (λ r.
          (r.0 ≡ map cell news)
          × IsRing head (heads (reverse (map cell news) ++ cs)) r.1
          × Valued r.1 (reverse (map cell news) ++ cs))
        (fill_loop head news m)
unfolding fill_loop
fill_loop-cells head [] cs m r v d apart all = (refl, r, v)
fill_loop-cells head (new ∷ news) cs m r v d apart all =
    let t = new.0 in
    let c : Ptr × ℤ = cell new in
    let m₁ : Memory = record m { values = λ q. if q == t then c.1 else m.values q } in
    let there : m.allocated (list_of t) ≡ true = all (list_of t) (ground arith) in
    let fresh : among (list_of t) (head ∷ heads cs) ≡ false = apart (list_of t) (ground arith) in
    let r₁ : IsRing head (heads cs) m₁ = record {
      chain = r.chain;
      allocated = r.allocated;
      distinct = r.distinct;
    } in
    let order : reverse (map cell news) ++ c ∷ cs ≡ reverse (c ∷ map cell news) ++ cs = sym (
      ap (λ ys. ys ++ cs) (reverse-cons c (map cell news))
      ∙ append_assoc (reverse (map cell news)) (c ∷ []) cs) in
    let stored : m₁.values t ≡ c.1 = rw (==_refl t) refl in
    rw (set_value-value t c.1 m there) (
      Yields-bind _ _ (list_add (list_of t) head m₁) _
        (list_add-IsRing (list_of t) head (heads cs) m₁ r₁ fresh there)
        λ m' (r', e).
          let values : m'.values ≡ m₁.values = ap (λ (k : Memory). k.values) e in
          let places : m'.allocated ≡ m.allocated = ap (λ (k : Memory). k.allocated) e in
          Yields-bind _ _ (fill_loop head news m') _
            (fill_loop-cells head news (c ∷ cs) m' r'
              (Valued-same m₁ m' (c ∷ cs) values
                (stored, Valued-set m cs t c.1 (ground (arith, fresh)) v))
              d.1
              (λ q h. ground (
                arith,
                apart q (ground arith),
                among-ne (list_of t) q (heads (map cell news)) h d.0,
              ))
              (λ q h. ap (λ f. f q) places ∙ all q (ground arith)))
            λ rest (printed, ring, vals). (
              rw (stored, printed) refl,
              subst (λ ys. IsRing head (heads ys) rest.1) order ring,
              subst (Valued rest.1) order vals,
            ))

-- When `malloc` returns distinct nodes, and with more rounds than nodes, `main` ends. For each node it
-- prints its address and the remainder of its random number by 100, and then, by each of the three
-- walks, the same nodes and values, the last one added first.
pub main-cells :
    (rounds : ℕ) (ahead : Ptr) (news : List (Ptr × ℕ)) (m : Memory)
    → m.allocated (list_of ahead) ≡ true
    → AllAllocated m (heads (map cell news))
    → Distinct (list_of ahead ∷ heads (map cell news))
    → length news < rounds
    → main rounds ahead news m
      ≡ value
          (map cell news, reverse (map cell news), reverse (map cell news), reverse (map cell news))
unfolding main
main-cells rounds ahead news m a all d lt =
    let head = list_of ahead in
    let cs = map cell news in
    let m₁ : Memory = record m { values = λ q. if q == ahead then pos 99999 else m.values q } in
    rw (set_value-value ahead (pos 99999) m a) (
      ends-value _ _ (
        Yields-bind _ _ (init_list_head head m₁) _ (init_list_head-IsRing head m₁ a)
          λ m₂ (r, values, places).
            Yields-bind _ _ (fill_loop head news m₂) _
              (fill_loop-cells head news [] m₂ r tt d.1
                (λ q h. ground (arith, among-ne head q (heads cs) h d.0))
                (λ q h. ap (λ f. f q) places ∙ all q h))
              λ filled (printed, ring, vals).
                let walked : walk_list rounds head filled.1 ≡ value (reverse cs) =
                  walk_list-visited head (heads (reverse cs ++ [])) rounds filled.1 ring (
                    omega (
                      arith,
                      length-map (λ (c : Ptr × ℤ). list_of c.0) (reverse cs ++ []),
                      ap length (append-nil (reverse cs)),
                      length-reverse cs,
                      length-map cell news,
                    ))
                  ∙ ap value
                      (Valued-visited filled.1 (reverse cs ++ []) vals ∙ append-nil (reverse cs)) in
                let walks = walks-walk_list rounds head filled.1 in
                rw (walks.0, walks.1, walked, printed) refl))
