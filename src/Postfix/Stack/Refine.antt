-- ===== src/Postfix/Stack/Refine.antt =====
-- The array of 224.c against a plain list, its top first.
use good_command.Common.{
  ℕ, ◌+◌, ◌-◌, ◌≤◌, ◌<◌, ◌≡◌, refl, Bool, true, false, List, [], ◌∷◌, arith, ltb, leb, ◌==◌, length,
  get_or, set, length-set, length-replicate, get_or-set_self, get_or-set_ne, value, trap,
}
use good_command.Postfix.Stack.{
  NodeNumOp, Stack, num_max_len, zero_node, stack_init, is_empty, stack_top, stack_push, stack_pop,
}

module _ {ℓ} {A : Type ℓ} where
  abbrev pub list_is_empty : List A → Bool
  list_is_empty [] = true
  list_is_empty (x ∷ xs) = false

-- The elements `xs`, printed by `text`, stand in the nodes.
module _ {A : Type 0} (text : A → List ℕ) where
  abbrev pub Stored : List NodeNumOp → List A → Type 0
  Stored nodes [] = Unit {0}
  Stored nodes (x ∷ xs) = ((get_or nodes (length xs) zero_node).num_op ≡ text x) × Stored nodes xs

  -- A stack for texts of `len` bytes.
  pub record Holds (len : ℕ) (st : Stack) (xs : List A) : Type 0 where
    pub used : st.used ≡ length xs
    pub room : length st.nodes ≡ len + 1
    pub limit : st.stack_len ≡ len
    pub stored : Stored st.nodes xs

  Stored-set :
      (nodes : List NodeNumOp) (xs : List A) (i : ℕ) (v : NodeNumOp)
      → length xs ≤ i
      → Stored nodes xs
      → Stored (set nodes i v) xs
  Stored-set nodes [] i v h st = tt
  Stored-set nodes (x ∷ xs) i v h (here, below) = (
    rw (get_or-set_ne nodes i (length xs) v zero_node (omega arith)) here,
    Stored-set nodes xs i v (omega arith) below,
  )

  pub init-Holds : (len : ℕ) (st : Stack) → st.used ≡ 0 → Holds len (stack_init len st) []
  unfolding stack_init
  init-Holds len st e = record {
    used = e;
    room = length-replicate (len + 1) zero_node;
    limit = refl;
    stored = tt;
  }

  module _ {len : ℕ} {st : Stack} where
    pub is_empty-Holds : (xs : List A) → Holds len st xs → is_empty st ≡ list_is_empty xs
    unfolding is_empty
    is_empty-Holds [] h = rw h.used
    is_empty-Holds (x ∷ xs) h = ground (arith, h.used)

    pub top-nil : Holds len st [] → stack_top st ≡ trap
    unfolding stack_top
    top-nil h = rw h.used refl

    pub top-cons :
        (x : A) (xs : List A)
        → length xs ≤ len
        → Holds len st (x ∷ xs)
        → (node : NodeNumOp) × (node.num_op ≡ text x) × (stack_top st ≡ value node)
    unfolding stack_top
    top-cons x xs le h =
        let e : st.used - 1 ≡ length xs = omega (arith, h.used) in
        let some_node : (st.used == 0) ≡ false = ground (arith, h.used) in
        let inside : ltb (length st.nodes) st.used ≡ false = ground (arith, h.used, h.room) in
        (get_or st.nodes (length xs) zero_node, h.stored.0, rw (some_node, inside, e) refl)

    pub push-Holds :
        (is_num : ℕ) (x : A) (xs : List A)
        → length xs ≤ len
        → length (text x) < num_max_len
        → Holds len st xs
        → (st' : Stack) × Holds len st' (x ∷ xs) × (stack_push is_num (text x) st ≡ value st')
    unfolding stack_push
    push-Holds is_num x xs le short h =
        let node : NodeNumOp = record { is_num = is_num; num_op = text x } in
        let below : leb st.used (st.stack_len + 1) ≡ true = ground (arith, h.used, h.limit) in
        let inside : ltb st.used (length st.nodes) ≡ true = ground (arith, h.used, h.room) in
        let small : ltb (length (text x)) num_max_len ≡ true = ground arith in
        (
          record st { nodes = set st.nodes st.used node; used = st.used + 1 },
          record {
            used = omega (arith, h.used);
            room = omega (arith, length-set st.nodes st.used node, h.room);
            limit = h.limit;
            stored = (
              rw (← h.used) (
                  rw
                    (get_or-set_self st.nodes st.used node zero_node
                      (omega (arith, h.used, h.room)))
                    refl),
              Stored-set st.nodes xs st.used node (omega (arith, h.used)) h.stored,
            );
          },
          rw (below, inside, small) refl,
        )

    pub pop-nil : Holds len st [] → stack_pop st ≡ trap
    unfolding stack_pop
    pop-nil h = rw (top-nil h) refl

    -- What a pop leaves.
    pub rest-Holds :
        (x : A) (xs : List A)
        → Holds len st (x ∷ xs)
        → Holds len (record st { used = st.used - 1 }) xs
    rest-Holds x xs h = record {
      used = omega (arith, h.used);
      room = h.room;
      limit = h.limit;
      stored = h.stored.1;
    }

    pub pop-cons :
        (x : A) (xs : List A)
        → length xs ≤ len
        → Holds len st (x ∷ xs)
        → (node : NodeNumOp) × (node.num_op ≡ text x)
          × (stack_pop st ≡ value (node, record st { used = st.used - 1 }))
    unfolding stack_pop
    pop-cons x xs le h = let (node, e, top) = top-cons x xs le h in (node, e, rw top refl)
