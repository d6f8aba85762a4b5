-- ===== src/Postfix/Stack.antt =====
-- The global stack of 224.c. `used` is the source's `it + 1`, and a `num_op` is given by its text.
-- `malloc` is taken to succeed.
pub mod Refine
use good_command.Common.{
  ℕ, ◌+◌, ◌-◌, Bool, List, [], ◌∷◌, ◌++◌, take, ◌||◌, ◌&&◌, ltb, leb, ◌==◌, if◌then◌else◌, length,
  get_or, set, replicate, Exec, value, trap, ◌>>=◌,
}
use good_command.Common.Int.{pos, ◌-ℤ◌}
use good_command.Clib.Bytes.{codes}
use good_command.Clib.Print.{print_int}

-- The bytes of `num_op`.
abbrev pub num_max_len : ℕ
num_max_len = 20

pub record NodeNumOp : Type 0 where
  pub is_num : ℕ
  pub num_op : List ℕ

pub record Stack : Type 0 where
  pub nodes : List NodeNumOp
  pub used : ℕ
  pub stack_len : ℕ

abbrev pub zero_node : NodeNumOp
zero_node = record { is_num = 0; num_op = [] }

-- The nodes are new, and `it` is left as it is.
unfoldable pub stack_init : ℕ → Stack → Stack
stack_init len st = record st { nodes = replicate (len + 1) zero_node; stack_len = len }

unfoldable pub is_empty : Stack → Bool
is_empty st = st.used == 0

-- The node with the index that `stack_top` and `stack_pop` return. The index -1, and one outside
-- the array, is a trap.
unfoldable pub stack_top : Stack → Exec NodeNumOp
stack_top st =
    if st.used == 0 || ltb (length st.nodes) st.used
    then trap
    else value (get_or st.nodes (st.used - 1) zero_node)

-- `strcpy` writes the text and its NUL. Past the limit a message is printed and nothing is pushed.
unfoldable pub stack_push : ℕ → List ℕ → Stack → Exec Stack
stack_push is_num num_op st =
    let node : NodeNumOp = record { is_num = is_num; num_op = num_op } in
    let fits = ltb st.used (length st.nodes) && ltb (length num_op) num_max_len in
    let pushed = record st { nodes = set st.nodes st.used node; used = st.used + 1 } in
    if leb st.used (st.stack_len + 1) then (if fits then value pushed else trap) else value st

-- The node that is read at the index it returns, and the stack without it.
unfoldable pub stack_pop : Stack → Exec (NodeNumOp × Stack)
stack_pop st = do node ← stack_top st; value (node, record st { used = st.used - 1 })

unfoldable pub node_texts : List NodeNumOp → List ℕ
node_texts [] = []
node_texts (node ∷ nodes) = node.num_op ++ (b' ' ∷ node_texts nodes)

-- What `stack_print` prints: all of the array but its last node.
unfoldable pub stack_print : Stack → List ℕ
unfolding node_texts ◌-ℤ◌
stack_print st =
    codes "stack: it:"
    ++ (print_int (pos st.used -ℤ pos 1)
        ++ (codes " :" ++ (node_texts (take st.stack_len st.nodes) ++ 10 ∷ [])))
