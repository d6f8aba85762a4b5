-- ===== src/KGroup.antt =====
-- source/src/leetcode/25-reverse-nodes-in-k-group.c: a singly linked list whose groups of k nodes
-- are reversed in place, over an explicit heap. Each loop over a list runs on a number of rounds.
pub mod Heap
pub mod Chain
pub mod Revert
pub mod Walk
pub mod Count
pub mod Groups
pub mod Round
pub mod Loop
pub mod Create
mod Tests
use good_command.Common.{
  ℕ, zero, suc, ◌+◌, ◌*◌, ◌/◌, Bool, true, false, ◌==◌, if◌then◌else◌, Exec, trap, no_fuel,
}
use good_command.Common.Int.{pos}
use good_command.KGroup.Heap.{
  Ptr, null, ListNode, node, Cmd, pure, ◌>>=◌, ◌>>◌, load, store, set_next,
}

unfoldable pub insert : (pre middle : Ptr) → Cmd (Unit {0})
insert pre middle = do p ← load pre; set_next middle p.next; set_next pre middle

unfoldable pub removenode : (pre middle : Ptr) → Cmd (Unit {0})
removenode pre middle = do
  p ← load pre
  if p.next == middle
      then (do m ← load middle; set_next pre m.next; set_next middle null)
      else pure tt

unfoldable pub size_loop : ℕ → ℕ → Ptr → Cmd ℕ
size_loop zero s p = λ _. no_fuel
size_loop (suc fuel) s p =
    if p == null then pure s else do n ← load p; size_loop fuel (s + 1) n.next

unfoldable pub get_size : ℕ → Ptr → Cmd ℕ
get_size fuel head = size_loop fuel 0 head

unfoldable pub revert_loop : ℕ → (head pre tail p : Ptr) → Cmd (Unit {0})
revert_loop zero head pre tail p = λ _. no_fuel
revert_loop (suc fuel) head pre tail p =
    if p == tail
    then pure tt
    else do n ← load p; removenode pre p; insert head p; revert_loop fuel head pre tail n.next

unfoldable pub do_revert : ℕ → (head tail : Ptr) → Cmd (Unit {0})
do_revert fuel head tail = do
  h ← load head
  n ← load h.next
  revert_loop fuel head h.next tail n.next

-- The index comes first here, since the loop counts it down.
unfoldable pub get_node_by_index : ℕ → Ptr → Cmd Ptr
get_node_by_index zero p = pure p
get_node_by_index (suc index) p = do n ← load p; get_node_by_index index n.next

-- `rounds` groups are left, and `i` are done.
unfoldable pub group_loop : ℕ → Ptr → ℕ → (rounds i : ℕ) → Cmd (Unit {0})
group_loop fuel prefix_head k zero i = pure tt
group_loop fuel prefix_head k (suc rounds) i = do
  p1 ← get_node_by_index (i * k) prefix_head
  p2 ← get_node_by_index ((i + 1) * k) prefix_head
  n ← load p2
  do_revert fuel p1 n.next
  group_loop fuel prefix_head k rounds (i + 1)

-- `prefix_head` is what `malloc` returns, and `k` is not negative. `s / k` traps for `k` 0.
unfoldable pub reverse_k_group : ℕ → (prefix_head head : Ptr) → ℕ → Cmd Ptr
reverse_k_group fuel prefix_head head k = do
  store prefix_head (node (pos 0) head)
  s ← get_size fuel head
  if k == 0
      then (λ _. trap)
      else do group_loop fuel prefix_head k (s / k) 0; n ← load prefix_head; pure n.next
