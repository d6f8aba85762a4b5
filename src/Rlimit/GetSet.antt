-- ===== src/Rlimit/GetSet.antt =====
-- source/src/getrlimit/get_set_limit.c: the limits of the size of a file, ten times.
use good_command.Common.{ℕ, zero, suc, Option, List, [], ◌∷◌, ◌++◌, match_option}
use good_command.Clib.Bytes.{codes}
use good_command.Clib.Print.{print_unsigned, print_long}
use good_command.Rlimit.{Rlimit, to_long_long}

-- The constant RLIMIT_FSIZE of Linux.
abbrev rlimit_fsize : ℕ
rlimit_fsize = 1

-- A structure of zeros, which `getrlimit` leaves as it is when it fails.
abbrev cleared : Rlimit
cleared = record { rlim_cur = 0; rlim_max = 0 }

unfoldable pub limit_lines : Rlimit → List ℕ
unfolding to_long_long print_unsigned print_long
limit_lines lim =
    codes "RLMIT_FSIZE:"
    ++ (print_unsigned rlimit_fsize
        ++ (codes "\nPrevious limits: soft:"
            ++ (print_long (to_long_long lim.rlim_cur)
                ++ (codes "; hard=" ++ (print_long (to_long_long lim.rlim_max) ++ 10 ∷ [])))))

module _ {World : Type 0} (getrlimit : World → Option Rlimit × World) where
  unfoldable pub limit_loop : ℕ → World → List ℕ
  unfolding limit_lines
  limit_loop zero w = []
  limit_loop (suc rounds) w =
      let got = getrlimit w in
      limit_lines (match_option got.0 cleared (λ lim. lim)) ++ limit_loop rounds got.1

  unfoldable pub main : World → List ℕ
  unfolding limit_loop
  main w = limit_loop 10 w
