-- ===== src/Frequency.antt =====
-- source/src/leetcode/451-sort-frequency.c: the bytes of a text, the most frequent ones first. `qsort`
-- is a parameter, and `char` is signed.
pub mod Pool
pub mod Sorted
pub mod Main
mod Tests
use good_command.Common.{
  ℕ, zero, suc, ◌+◌, Bool, true, false, List, [], ◌∷◌, ◌++◌, ltb, ◌==◌, if◌then◌else◌, length,
  get_or, set, replicate, Exec, value, trap, ◌>>=◌,
}
use good_command.Common.Int.{ℤ, pos, negsuc}
use good_command.Clib.Int32
use good_command.Clib.Qsort.{Sorter}

abbrev pub char_max : ℕ
char_max = 127

pub record Elemnt : Type 0 where
  pub e : ℕ
  pub frequency : ℤ

abbrev pub cleared : Elemnt
cleared = record { e = 0; frequency = pos 0 }

unfoldable pub compare : Elemnt → Elemnt → ℤ
compare first second = Int32.sub second.frequency first.frequency

-- The loop over the text. The pool has the places 0 to `char_max - 1`; a byte from 128 on is a negative
-- index.
unfoldable pub count_loop : List ℕ → List Elemnt → Exec (List Elemnt)
count_loop [] pool = value pool
count_loop (c ∷ s) pool =
    let place : Elemnt = record {
      e = c;
      frequency = Int32.add (get_or pool c cleared).frequency (pos 1);
    } in
    let rest = count_loop s (set pool c place) in if ltb c char_max then rest else trap

-- The inner loop, from which a negative number does not come back within `int`.
unfoldable pub copies : Elemnt → Exec (List ℕ)
copies x = elim x.frequency [ pos n ↦ value (replicate n x.e) | negsuc n ↦ trap ]

-- The loop over the sorted pool, up to its end or to the first place that was not used.
unfoldable pub emit_loop : List Elemnt → Exec (List ℕ)
unfolding copies
emit_loop [] = value []
emit_loop (x ∷ pool) =
    let rest = copies x >>= λ t. emit_loop pool >>= λ r. value (t ++ r) in
    if x.e == 0 then value [] else rest

-- The result has a byte more than the text; a longer one is written past it.
unfoldable pub frequency_sort : Sorter Elemnt → List ℕ → Exec (List ℕ)
frequency_sort qsort s = do
  pool ← count_loop s (replicate char_max cleared)
  r ← emit_loop (qsort compare pool)
  if ltb (length r) (length s + 1) then value r else trap
