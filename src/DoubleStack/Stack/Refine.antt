-- ===== src/DoubleStack/Stack/Refine.antt =====
-- The array stack of double_stack_224.c against a plain list, its top first.
use good_command.Common.{
  ℕ, ◌+◌, ◌-◌, ◌≤◌, ◌<◌, ◌≡◌, refl, sym, inl, inr, Bool, true, false, List, [], ◌∷◌, arith, ltb,
  ◌==◌, if◌then◌else◌, Bool-cases, length, get_or, set, length-set, length-replicate,
  get_or-set_self, get_or-set_ne,
}
use mathlib.Core.Path.{subst}
use good_command.Common.Int.{ℤ, pos}
use good_command.DoubleStack.Stack.{
  Stack, stack_init, stack_is_empty, stack_is_full, stack_top, stack_push, stack_pop, StackOps,
}

abbrev pub list_is_empty : List ℤ → Bool
list_is_empty [] = true
list_is_empty (x ∷ xs) = false

abbrev pub list_top : List ℤ → ℤ
list_top [] = pos 0
list_top (x ∷ xs) = x

abbrev pub list_pop : List ℤ → ℤ × List ℤ
list_pop [] = (pos 0, [])
list_pop (x ∷ xs) = (x, xs)

-- The unbounded stack that the array stands for.
abbrev pub list_stack : StackOps
list_stack = record {
  Carrier = List ℤ;
  is_empty = list_is_empty;
  top = list_top;
  push = λ xs e. e ∷ xs;
  pop = list_pop;
}

-- The element above `n` others stands in slot `n`.
abbrev Stored : List ℤ → List ℤ → Type 0
Stored items [] = Unit {0}
Stored items (x ∷ xs) = (get_or items (length xs) (pos 0) ≡ x) × Stored items xs

-- A stack of capacity `cap` holds the elements `xs`.
pub record Holds (cap : ℕ) (s : Stack) (xs : List ℤ) : Type 0 where
  pub used : s.used ≡ length xs
  pub room : length s.items ≡ cap
  pub limit : s.max_size ≡ cap
  pub fits : length xs ≤ cap
  pub stored : Stored s.items xs

Stored-set :
    (items xs : List ℤ) (i : ℕ) (v : ℤ)
    → length xs ≤ i
    → Stored items xs
    → Stored (set items i v) xs
Stored-set items [] i v h st = tt
Stored-set items (x ∷ xs) i v h (here, below) = (
  rw (get_or-set_ne items i (length xs) v (pos 0) (omega arith)) here,
  Stored-set items xs i v (omega arith) below,
)

pub init-Holds : (cap : ℕ) → Holds cap (stack_init cap) []
unfolding stack_init
init-Holds cap = record {
  used = refl;
  room = length-replicate cap (pos 0);
  limit = refl;
  fits = omega arith;
  stored = tt;
}

module _ {cap : ℕ} {s : Stack} where
  pub is_empty-Holds : (xs : List ℤ) → Holds cap s xs → stack_is_empty s ≡ list_is_empty xs
  unfolding stack_is_empty
  is_empty-Holds [] h = rw h.used
  is_empty-Holds (x ∷ xs) h = ground (arith, h.used)

  pub top-Holds : (xs : List ℤ) → Holds cap s xs → stack_top s ≡ list_top xs
  unfolding stack_top
  top-Holds [] h = rw h.used
  top-Holds (x ∷ xs) h =
      let e : s.used - 1 ≡ length xs = omega (arith, h.used) in
      rw (is_empty-Holds (x ∷ xs) h, e) h.stored.0

  push_free-Holds :
      (xs : List ℤ) (e : ℤ)
      → length xs < cap
      → Holds cap s xs
      → Holds cap (record s { items = set s.items s.used e; used = s.used + 1 }) (e ∷ xs)
  push_free-Holds xs e lt h = record {
    used = omega (arith, h.used);
    room = omega (arith, length-set s.items s.used e, h.room);
    limit = h.limit;
    fits = omega arith;
    stored = (
      rw (← h.used) (get_or-set_self s.items s.used e (pos 0) (omega (arith, h.used, h.room))),
      Stored-set s.items xs s.used e (omega (arith, h.used)) h.stored,
    );
  }

  pub push-Holds :
      (xs : List ℤ) (e : ℤ) → length xs < cap → Holds cap s xs → Holds cap (stack_push s e) (e ∷ xs)
  unfolding stack_push
  push-Holds xs e lt h =
      let free : (s.used == s.max_size) ≡ false = ground (arith, h.used, h.limit) in
      rw free (push_free-Holds xs e lt h)

  -- A push on a full stack changes nothing.
  pub push-full : (xs : List ℤ) (e : ℤ) → length xs ≡ cap → Holds cap s xs → stack_push s e ≡ s
  unfolding stack_push
  push-full xs e full h =
      let busy : (s.used == s.max_size) ≡ true = ground (arith, h.used, h.limit) in rw busy refl

  pub pop-Holds :
      (xs : List ℤ)
      → Holds cap s xs
      → ((stack_pop s).0 ≡ (list_pop xs).0) × Holds cap (stack_pop s).1 (list_pop xs).1
  unfolding stack_pop
  pop-Holds [] h = rw (is_empty-Holds [] h) (refl, h)
  pop-Holds (x ∷ xs) h =
      let e : s.used - 1 ≡ length xs = omega (arith, h.used) in
      rw (is_empty-Holds (x ∷ xs) h) (
        rw e (
          h.stored.0,
          record {
            used = refl;
            room = omega (arith, length-set s.items (length xs) (pos 0), h.room);
            limit = h.limit;
            fits = omega (arith, h.fits);
            stored = Stored-set s.items xs (length xs) (pos 0) (omega arith) h.stored.1;
          },
        ))

  queries-refine :
      (xs : List ℤ)
      → Holds cap s xs
      → (stack_is_empty s ≡ list_is_empty xs)
        × (stack_is_full s ≡ (length xs == cap))
        × (stack_top s ≡ list_top xs)
        × ((stack_pop s).0 ≡ (list_pop xs).0)
        × Holds cap (stack_pop s).1 (list_pop xs).1
  unfolding stack_is_full
  queries-refine xs h =
      let popped = pop-Holds xs h in
      (is_empty-Holds xs h, rw (h.used, h.limit) refl, top-Holds xs h, popped.0, popped.1)

  push-refines :
      (xs : List ℤ) (e : ℤ)
      → Holds cap s xs
      → Holds cap (stack_push s e) (if ltb (length xs) cap then e ∷ xs else xs)
  push-refines xs e h = elim (Bool-cases (ltb (length xs) cap)) [
    | inl room ↦ rw room (push-Holds xs e (ground arith) h)
    | inr none_left ↦
        rw none_left
          (subst (λ t. Holds cap t xs) (sym (push-full xs e (ground (arith, h.fits)) h)) h)
  ]

  -- On a stack that holds `xs` the tests, the top and the element and rest of a pop are those of
  -- the list; the empty stack answers 0 and stays as it is. A push puts its element on top of a stack
  -- with room, and changes nothing of a full one.
  pub operations-refine :
      (xs : List ℤ) (e : ℤ)
      → Holds cap s xs
      → (stack_is_empty s ≡ list_is_empty xs)
        × (stack_is_full s ≡ (length xs == cap))
        × (stack_top s ≡ list_top xs)
        × ((stack_pop s).0 ≡ (list_pop xs).0)
        × Holds cap (stack_pop s).1 (list_pop xs).1
        × Holds cap (stack_push s e) (if ltb (length xs) cap then e ∷ xs else xs)
  operations-refine xs e h =
      let (empty, full, top, popped, rest) = queries-refine xs h in
      (empty, full, top, popped, rest, push-refines xs e h)
