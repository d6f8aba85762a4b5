-- ===== src/Shared.antt =====
-- source/src/share_lib/ and source/src/static_lib/: a function in a library, and a program that calls it.
mod Laws
mod Tests
use good_command.Common.{ℕ, ◌+◌, List, [], ◌∷◌, ◌++◌, ltb, if◌then◌else◌}
use good_command.Clib.Bytes.{codes}

-- The byte that is printed for `a`, an ASCII character.
unfoldable pub low : ℕ → ℕ
low a = if ltb a 91 then a + 32 else a

unfoldable pub lowcase : ℕ → List ℕ
unfolding low
lowcase a =
    codes "this is program in share library\n"
    ++ (codes "turning " ++ (a ∷ codes " into low case " ++ low a ∷ 10 ∷ []))

unfoldable pub application_main : List ℕ
unfolding lowcase
application_main = lowcase b'F'

unfoldable pub fun : List ℕ
fun = codes "fun() call from a static library\n"

unfoldable pub driver_main : List ℕ
unfolding fun
driver_main = fun
