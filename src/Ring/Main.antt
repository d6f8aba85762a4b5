-- ===== src/Ring/Main.antt =====
-- The other two walks and `main` of linux_list.c.
pub mod Laws
use good_command.Common.{
  ℕ, zero, suc, ◌+◌, ◌%◌, Bool, List, [], ◌∷◌, ◌==◌, if◌then◌else◌, Exec, value, trap, no_fuel,
  ◌>>=◌,
}
use good_command.Common.Int.{ℤ, pos}
use good_command.Ring.{
  Ptr, Memory, list_offset, container_of, get_next, init_list_head, list_add, walk_list,
}

unfoldable pub list_entry : Ptr → Ptr
unfolding container_of
list_entry ptr = container_of ptr

unfoldable pub entry_loop : (head : Ptr) (rounds : ℕ) (ptr : Ptr) → Memory → Exec (List (Ptr × ℤ))
unfolding get_next list_entry
entry_loop head zero ptr m = no_fuel
entry_loop head (suc rounds) ptr m = if ptr == head then value [] else do
  next ← get_next ptr m
  rest ← entry_loop head rounds next m
  value ((list_entry ptr, m.values (list_entry ptr)) ∷ rest)

unfoldable pub walk_list_list_entry : ℕ → Ptr → Memory → Exec (List (Ptr × ℤ))
unfolding get_next
walk_list_list_entry rounds head m = get_next head m >>= λ ptr. entry_loop head rounds ptr m

-- The step of the `for` comes after its body.
unfoldable pub for_each_loop :
    (head : Ptr) (rounds : ℕ) (place : Ptr) → Memory → Exec (List (Ptr × ℤ))
unfolding get_next list_entry
for_each_loop head zero place m = no_fuel
for_each_loop head (suc rounds) place m =
    let anode = list_entry place in
    if place == head then value [] else do
      next ← get_next place m
      rest ← for_each_loop head rounds next m
      value ((anode, m.values anode) ∷ rest)

unfoldable pub walk_list_for_each : ℕ → Ptr → Memory → Exec (List (Ptr × ℤ))
unfolding get_next
walk_list_for_each rounds head m = get_next head m >>= λ place. for_each_loop head rounds place m

-- `&anode->list`
abbrev pub list_of : Ptr → Ptr
list_of anode = anode + list_offset

-- `anode->value = v`
unfoldable pub set_value : Ptr → ℤ → Memory → Exec Memory
set_value anode v m =
    if m.allocated (list_of anode)
    then value (record m { values = λ q. if q == anode then v else m.values q })
    else trap

-- The loop of `main`, for what `malloc` and `rand` return in each round: what it prints, and the memory.
unfoldable pub fill_loop : (head : Ptr) → List (Ptr × ℕ) → Memory → Exec (List (Ptr × ℤ) × Memory)
unfolding set_value list_add
fill_loop head [] m = value ([], m)
fill_loop head ((temp, random) ∷ news) m = do
  valued ← set_value temp (pos (random % 100)) m
  added ← list_add (list_of temp) head valued
  rest ← fill_loop head news added
  value ((temp, valued.values temp) ∷ rest.0, rest.1)

-- What the loop and the three walks print.
unfoldable pub main :
    (rounds : ℕ) (ahead : Ptr)
    → List (Ptr × ℕ)
    → Memory
    → Exec (List (Ptr × ℤ) × List (Ptr × ℤ) × List (Ptr × ℤ) × List (Ptr × ℤ))
unfolding set_value init_list_head fill_loop walk_list walk_list_list_entry walk_list_for_each
main rounds ahead news m = do
  valued ← set_value ahead (pos 99999) m
  empty ← init_list_head (list_of ahead) valued
  filled ← fill_loop (list_of ahead) news empty
  first ← walk_list rounds (list_of ahead) filled.1
  second ← walk_list_list_entry rounds (list_of ahead) filled.1
  third ← walk_list_for_each rounds (list_of ahead) filled.1
  value (filled.0, first, second, third)
