-- ===== src/Fishing/Tests.antt =====
-- Runs of the kernel module of fishing.c, and a witness for a block of the size that it asks for.
use mathlib.Core.Option.{some-injective}
use good_command.Common.{
  ℕ, ◌≤◌, ◌≡◌, refl, sym, ap, ◌∙◌, none, some, List, [], arith, length, replicate, value,
  length-replicate, Yields,
}
use good_command.Clib.Bytes.{codes}
use good_command.Clib.Print.{print_unsigned}
use good_command.Fishing.{fill_loop, get_mem}
use good_command.Fishing.Log.{mem_size, hello_init, hello_exit, test_data_type}
use good_command.Fishing.Log.Laws.{IsLoaded, hello_init-IsLoaded}

run_get_mem :
    get_mem 28 (some (replicate 29 0)) ≡ value (some (codes "abcdefghijklmnopqrstuvwxyzab\0"))
unfolding get_mem fill_loop
run_get_mem = refl

run_failure :
    hello_init [] none
    ≡ value record { status = 0; log = codes "I bear a charmed life.\nkmalloc fail!\n"; mem = none }
unfolding hello_init get_mem
run_failure = refl

run_exit : hello_exit ≡ codes "Out, out, brief candle!\n"
unfolding hello_exit
run_exit = refl

run_sizes :
    test_data_type record {
      int = 4;
      float = 4;
      double = 8;
      char = 1;
      long = 8;
      unsigned_long = 8;
      short = 2;
      unsigned_short = 2;
    }
    ≡ codes
        "Size of int: 4 bytes\nSize of float: 4 bytes\nSize of double: 8 bytes\nSize of char: 1 byte\nSize of long: 8 bytes\nSize of unsigned long: 8 bytes\nSize of short: 2 bytes\nSize of unsigned short: 2 bytes\n"
unfolding test_data_type print_unsigned
run_sizes = refl

block-large : (n : ℕ) (mem : List ℕ) → some (replicate n 0) ≡ some mem → n ≤ length mem
block-large n mem e =
    let same = sym (ap length (some-injective (replicate n 0) mem e)) ∙ length-replicate n 0 in
    omega (arith, same)

hello_init-IsLoaded_example :
    Yields
      (IsLoaded (codes "0xffff") (some (replicate mem_size 0)))
      (hello_init (codes "0xffff") (some (replicate mem_size 0)))
hello_init-IsLoaded_example =
    hello_init-IsLoaded (codes "0xffff") (some (replicate mem_size 0)) (block-large mem_size)
