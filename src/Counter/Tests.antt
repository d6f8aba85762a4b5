-- ===== src/Counter/Tests.antt =====
-- A run of b.c.
use good_command.Common.{◌≡◌, refl}
use good_command.Clib.Bytes.{codes}
use good_command.Clib.Print.{print_int}
use good_command.Counter

run_main : Counter.main ≡ codes "Count init=0,incr= 1,Added = =1\n"
unfolding Counter.main print_int
run_main = refl
