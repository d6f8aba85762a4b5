-- ===== src/Fishing.antt =====
-- get_mem of source/src/fishing/fishing.c, which fills a block of kernel memory with letters.
pub mod Fill
pub mod Log
mod Tests
use good_command.Common.{
  ℕ, zero, suc, ◌+◌, ◌%◌, Bool, true, false, List, Option, ltb, if◌then◌else◌, length, set,
  match_option, Exec, value, trap, ◌>>=◌, none, some,
}

-- The loop, with `rounds` bytes to come; a write outside the block traps. The byte is cut to a `char`.
unfoldable pub fill_loop : (rounds i a : ℕ) → List ℕ → Exec (List ℕ)
fill_loop zero i a mem = value mem
fill_loop (suc rounds) i a mem =
    let rest = fill_loop rounds (i + 1) ((a + 1) % 26) (set mem i ((a + 97) % 256)) in
    if ltb i (length mem) then rest else trap

-- For `mem_size` bytes, and for what `kmalloc` returns: the block as it is left, or nothing.
unfoldable pub get_mem : (mem_size : ℕ) → Option (List ℕ) → Exec (Option (List ℕ))
get_mem mem_size kernel_mem =
    match_option kernel_mem (value none) (λ mem. fill_loop mem_size 0 0 mem >>= λ m. value (some m))
