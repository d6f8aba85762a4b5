-- ===== src/Ring.antt =====
-- source/src/linux_list/linux_list.c: a circular list with two links, embedded in nodes.
pub mod Chain
pub mod Laws
pub mod Build
pub mod Main
mod Tests
use good_command.Common.{
  ℕ, zero, suc, ◌+◌, ◌-◌, Bool, true, false, List, [], ◌∷◌, ◌==◌, if◌then◌else◌, Exec, value, trap,
  no_fuel, ◌>>=◌,
}
use good_command.Common.Int.{ℤ}

abbrev pub Ptr : Type 0
Ptr = ℕ

-- The fields `next` and `prev` of the list heads, by address, and `value` of the nodes, by address.
pub record Memory : Type 0 where
  pub allocated : Ptr → Bool
  pub next : Ptr → Ptr
  pub prev : Ptr → Ptr
  pub values : Ptr → ℤ

-- An `int`, and the padding in front of the pointers of a list head.
abbrev pub list_offset : ℕ
list_offset = 8

-- The node of an embedded list head.
unfoldable pub container_of : Ptr → Ptr
container_of ptr = ptr - list_offset

abbrev pub update : (Ptr → Ptr) → Ptr → Ptr → Ptr → Ptr
update f p v q = if q == p then v else f q

-- A read and a write of a field; outside an allocated list head they trap.
unfoldable pub get_next : Ptr → Memory → Exec Ptr
get_next p m = if m.allocated p then value (m.next p) else trap

unfoldable pub set_next : Ptr → Ptr → Memory → Exec Memory
set_next p v m = if m.allocated p then value (record m { next = update m.next p v }) else trap

unfoldable pub set_prev : Ptr → Ptr → Memory → Exec Memory
set_prev p v m = if m.allocated p then value (record m { prev = update m.prev p v }) else trap

unfoldable pub init_list_head : Ptr → Memory → Exec Memory
unfolding set_next set_prev
init_list_head list m = set_next list list m >>= set_prev list list

-- `__list_add`
unfoldable pub list_add_between : (new prev next : Ptr) → Memory → Exec Memory
unfolding set_next set_prev
list_add_between new prev next m =
    set_prev next new m >>= set_next new next >>= set_prev new prev >>= set_next prev new

unfoldable pub list_add : (new head : Ptr) → Memory → Exec Memory
unfolding get_next list_add_between
list_add new head m = get_next head m >>= λ next. list_add_between new head next m

-- The nodes that a walk comes to, from `ptr` on, with the values that it prints.
unfoldable pub walk_loop : (head : Ptr) (rounds : ℕ) (ptr : Ptr) → Memory → Exec (List (Ptr × ℤ))
unfolding get_next container_of
walk_loop head zero ptr m = no_fuel
walk_loop head (suc rounds) ptr m = if ptr == head then value [] else do
  next ← get_next ptr m
  rest ← walk_loop head rounds next m
  value ((container_of ptr, m.values (container_of ptr)) ∷ rest)

unfoldable pub walk_list : ℕ → Ptr → Memory → Exec (List (Ptr × ℤ))
unfolding get_next
walk_list rounds head m = get_next head m >>= λ ptr. walk_loop head rounds ptr m

-- The loop of `main`, for the list heads of the nodes that `malloc` returns one after the other.
unfoldable pub add_all : (head : Ptr) → List Ptr → Memory → Exec Memory
unfolding list_add
add_all head [] m = value m
add_all head (new ∷ news) m = list_add new head m >>= add_all head news
