-- ===== src/KGroup/Create.antt =====
-- `create_list`, `walk_a_list` and the two cases of `main` in 25-reverse-nodes-in-k-group.c.
pub mod Laws
pub mod Cases
use good_command.Common.{ℕ, zero, suc, ◌+◌, Bool, List, [], ◌∷◌, ◌==◌, if◌then◌else◌, no_fuel}
use good_command.Common.Int.{ℤ, pos}
use good_command.KGroup.Heap.{Ptr, null, node, Cmd, pure, ◌>>=◌, ◌>>◌, load, store, set_next}
use good_command.KGroup.{reverse_k_group}

-- The addresses and values that are printed.
unfoldable pub visit_loop : ℕ → Ptr → Cmd (List (Ptr × ℤ))
visit_loop zero p1 = λ _. no_fuel
visit_loop (suc fuel) p1 =
    if p1 == null
    then pure []
    else do n ← load p1; rest ← visit_loop fuel n.next; pure ((p1, n.val) ∷ rest)

unfoldable pub walk_a_list : ℕ → Ptr → Cmd (List (Ptr × ℤ))
walk_a_list fuel head = visit_loop fuel head

unfoldable pub last_loop : ℕ → Ptr → Cmd Ptr
last_loop zero p1 = λ _. no_fuel
last_loop (suc fuel) p1 = do n ← load p1; if n.next == null then pure p1 else last_loop fuel n.next

-- The loop from `i` on, for the addresses that `malloc` returns one after the other.
unfoldable pub create_loop : ℕ → Ptr → ℕ → List Ptr → Cmd (Unit {0})
create_loop fuel new_head i [] = pure tt
create_loop fuel new_head i (p ∷ ps) = do
  store p (node (pos i) null)
  p1 ← last_loop fuel new_head
  set_next p1 p
  create_loop fuel new_head (i + 1) ps

-- `k` is the number of the addresses `ps`.
unfoldable pub create_list : ℕ → (new_head : Ptr) → (ps : List Ptr) → Cmd Ptr
create_list fuel new_head ps = do
  store new_head (node (pos 0) null)
  create_loop fuel new_head 1 ps
  pure new_head

-- One case of `main`: what it prints before and after.
unfoldable pub run_case :
    ℕ
    → (new_head : Ptr) → (ps : List Ptr) → (prefix_head : Ptr) → ℕ
    → Cmd (List (Ptr × ℤ) × List (Ptr × ℤ))
run_case fuel new_head ps prefix_head k = do
  created ← create_list fuel new_head ps
  before ← walk_a_list fuel created
  n ← load created
  re ← reverse_k_group fuel prefix_head n.next k
  behind ← walk_a_list fuel re
  pure (before, behind)

-- The two cases, for the addresses that each is given.
unfoldable pub both_cases :
    ℕ
    → (first_case second_case : Ptr × List Ptr × Ptr)
    → Cmd ((List (Ptr × ℤ) × List (Ptr × ℤ)) × (List (Ptr × ℤ) × List (Ptr × ℤ)))
both_cases fuel (head₁, ps₁, prefix₁) (head₂, ps₂, prefix₂) = do
  case₁ ← run_case fuel head₁ ps₁ prefix₁ 2
  case₂ ← run_case fuel head₂ ps₂ prefix₂ 3
  pure (case₁, case₂)
