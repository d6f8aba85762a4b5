-- ===== src/Counter.antt =====
-- source/src/trust/src/: a.c and b.c, which count. The header makes `g_count` static, so each of the two
-- files has a counter of its own.
mod Laws
mod Tests
use good_command.Common.{ℕ, List, [], ◌∷◌, ◌++◌}
use good_command.Common.Int.{ℤ, pos}
use good_command.Clib.Bytes.{codes}
use good_command.Clib.Int32
use good_command.Clib.Print.{print_int}

pub record Counts : Type 0 where
  pub in_a : ℤ
  pub in_b : ℤ

-- a.c
unfoldable pub add_count : ℤ → Counts → Counts
unfolding Int32.add
add_count count c = record c { in_a = Int32.add c.in_a count }

-- b.c
unfoldable pub incr_count : Counts → Counts
unfolding Int32.add
incr_count c = record c { in_b = Int32.add c.in_b (pos 1) }

-- What is printed, and the counters behind it.
unfoldable pub test : Counts → List ℕ × Counts
unfolding incr_count add_count
test c =
    let c₁ = incr_count c in
    let c₂ = add_count (pos 3) c₁ in
    (
      codes "Count init="
          ++ (print_int c.in_b
              ++ (codes ",incr= "
                  ++ (print_int c₁.in_b
                      ++ (codes ",Added = =" ++ (print_int c₂.in_b ++ 10 ∷ []))))),
      c₂,
    )

unfoldable pub main : List ℕ
unfolding test
main = (test (record { in_a = pos 0; in_b = pos 0 })).0
