-- ===== src/KGroup/Tests.antt =====
-- The list 1, 2, 3, 4, 5 of the source's `main` in groups of two, and theorems at it.
use good_command.Common.{ℕ, ◌/◌, ◌≡◌, refl, none, some, List, [], ◌∷◌, arith, map, value, Exec}
use good_command.Common.Int.{ℤ, pos}
use good_command.KGroup
use good_command.KGroup.Create
use good_command.KGroup.Create.Laws.{number, Fresh, create_list-number}
use good_command.KGroup.Create.Cases.{run_case-groups}
use good_command.KGroup.Heap
use good_command.KGroup.Heap.{Ptr, null, node, write, Ends}
use good_command.KGroup.Chain.{Cells, first, Linked, Distinct, SameOutside}
use good_command.KGroup.Loop.{groups, reverse_k_group-groups}

abbrev cells : Cells
cells = (11, pos 1) ∷ (12, pos 2) ∷ (13, pos 3) ∷ (14, pos 4) ∷ (15, pos 5) ∷ []

abbrev memory : Heap.Heap
memory =
    write
      (write
        (write (write (write (λ _. none) 15 (node (pos 5) 0)) 14 (node (pos 4) 15)) 13
          (node (pos 3) 14))
        12 (node (pos 2) 13))
      11 (node (pos 1) 12)

memory-Linked : Linked memory cells null
unfolding write
memory-Linked = (
  record { ne_null = omega arith; holds = refl },
  (
    record { ne_null = omega arith; holds = refl },
    (
      record { ne_null = omega arith; holds = refl },
      (
        record { ne_null = omega arith; holds = refl },
        (record { ne_null = omega arith; holds = refl }, tt),
      ),
    ),
  ),
)

cells-Distinct : Distinct cells
cells-Distinct = (refl, (refl, (refl, (refl, (refl, tt)))))

-- The values along the list at `p`.
values : ℕ → Ptr → Heap.Heap → List ℤ
values ℕ.zero p h = []
values (ℕ.suc n) p h = elim (h p) [ none ↦ [] | some c ↦ c.val ∷ values n c.next h ]

walk : ℕ → Exec (Ptr × Heap.Heap) → List ℤ
walk n (value (p, h)) = values n p h
walk n _ = []

reversed_pairs :
    walk 9 (KGroup.reverse_k_group 6 7 11 2 memory) ≡ pos 2 ∷ pos 1 ∷ pos 4 ∷ pos 3 ∷ pos 5 ∷ []
unfolding write values walk KGroup.reverse_k_group KGroup.get_size KGroup.size_loop
    KGroup.group_loop KGroup.get_node_by_index KGroup.do_revert KGroup.revert_loop KGroup.insert
    KGroup.removenode Heap.load Heap.set_next
reversed_pairs = refl

reverse_k_group-groups_example :
    Ends
      (λ p g.
        (p ≡ first (groups (5 / ℕ.suc 1) (ℕ.suc 1) cells) null)
        × Linked g (groups (5 / ℕ.suc 1) (ℕ.suc 1) cells) null
        × SameOutside ((7, pos 0) ∷ cells) memory g)
      (KGroup.reverse_k_group 6 7 11 (ℕ.suc 1) memory)
reverse_k_group-groups_example =
    reverse_k_group-groups 6 1 memory 7 cells memory-Linked cells-Distinct (omega arith) refl
      (omega arith)

abbrev five : List Ptr
five = 22 ∷ 23 ∷ 24 ∷ 25 ∷ 26 ∷ []

printed : Exec ((List (Ptr × ℤ) × List (Ptr × ℤ)) × Heap.Heap) → List ℤ × List ℤ
printed (value ((before, behind), h)) = (map (λ c. c.1) before, map (λ c. c.1) behind)
printed _ = ([], [])

first_case : printed (Create.run_case 7 21 five 31 2 (λ _. none)) ≡ (
  pos 0 ∷ pos 1 ∷ pos 2 ∷ pos 3 ∷ pos 4 ∷ pos 5 ∷ [],
  pos 2 ∷ pos 1 ∷ pos 4 ∷ pos 3 ∷ pos 5 ∷ [],
)
unfolding printed write values walk KGroup.reverse_k_group KGroup.get_size KGroup.size_loop
    KGroup.group_loop KGroup.get_node_by_index KGroup.do_revert KGroup.revert_loop KGroup.insert
    KGroup.removenode Heap.load Heap.set_next Create.run_case Create.create_list Create.create_loop
    Create.last_loop Create.walk_a_list Create.visit_loop
first_case = refl

five-Fresh : Fresh 21 five
five-Fresh = ((refl, (refl, (refl, (refl, (refl, (refl, tt)))))), refl)

create_list-number_example :
    Ends
      (λ p g.
        (p ≡ 21)
        × Linked g ((21, pos 0) ∷ number 1 five) null
        × SameOutside ((21, pos 0) ∷ number 1 five) memory g)
      (Create.create_list 7 21 five memory)
create_list-number_example = create_list-number 7 21 five memory five-Fresh (omega arith)

run_case-groups_example :
    Ends
      (λ r g. (r.0 ≡ (21, pos 0) ∷ number 1 five) × (r.1 ≡ groups (◌/◌ 5 2) 2 (number 1 five)))
      (Create.run_case 7 21 five 31 2 memory)
run_case-groups_example =
    run_case-groups 7 21 five 31 1 memory five-Fresh (omega arith) refl (omega arith)
