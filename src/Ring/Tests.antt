-- ===== src/Ring/Tests.antt =====
-- A head at 108 and two nodes, as main of linux_list.c links them, and theorems at them.
use good_command.Common.{
  ℕ, ◌≡◌, refl, List, [], ◌∷◌, arith, ◌==◌, if◌then◌else◌, value, ◌>>=◌, Yields,
}
use good_command.Common.Int.{pos}
use good_command.Ring.{
  Ptr, Memory, container_of, init_list_head, list_add, list_add_between, get_next, set_next,
  set_prev, walk_loop, walk_list, add_all,
}
use good_command.Ring.Chain.{among, AllAllocated, IsRing}
use good_command.Ring.Laws.{added, list_add-IsRing}
use good_command.Ring.Main.{main}
use good_command.Ring.Main.Laws.{main-cells}

abbrev memory : Memory
memory = record {
  allocated = λ p. among p (108 ∷ 208 ∷ 308 ∷ []);
  next = λ p. 0;
  prev = λ p. 0;
  values = λ p. if p == 200 then pos 7 else pos 9;
}

abbrev nodes : List Ptr
nodes = 208 ∷ 308 ∷ []

nodes-AllAllocated : AllAllocated memory nodes
nodes-AllAllocated = λ q h. ground arith

run_walk :
    (init_list_head 108 memory >>= add_all 108 nodes >>= walk_list 5 108)
    ≡ value ((300, pos 9) ∷ (200, pos 7) ∷ [])
unfolding init_list_head add_all walk_list walk_loop list_add list_add_between get_next set_next
    set_prev container_of
run_walk = refl

-- A ring of the head alone.
abbrev lone : Memory
lone = record memory { next = λ p. 108; prev = λ p. 108 }

lone-IsRing : IsRing 108 [] lone
lone-IsRing = record {
  chain = (refl, refl);
  allocated = λ q h. ground arith;
  distinct = (refl, tt);
}

list_add-IsRing_example :
    Yields
      (λ m'. IsRing 108 (208 ∷ []) m' × (m' ≡ added 208 108 (lone.next 108) lone))
      (list_add 208 108 lone)
list_add-IsRing_example = list_add-IsRing 208 108 [] lone lone-IsRing refl refl

abbrev two_news : List (Ptr × ℕ)
two_news = (200, 107) ∷ (300, 42) ∷ []

main-cells_example :
    main 3 100 two_news memory
    ≡ value (
      (200, pos 7) ∷ (300, pos 42) ∷ [],
      (300, pos 42) ∷ (200, pos 7) ∷ [],
      (300, pos 42) ∷ (200, pos 7) ∷ [],
      (300, pos 42) ∷ (200, pos 7) ∷ [],
    )
main-cells_example =
    main-cells 3 100 two_news memory refl nodes-AllAllocated (refl, (refl, (refl, tt)))
      (omega arith)
