-- ===== src/Strings/Tests.antt =====
-- Runs of the four programs.
use good_command.Common.{◌≡◌, refl, value, trap}
use good_command.Clib.Bytes.{codes}
use good_command.Clib.Print.{print_int}
use good_command.Strings.{
  s2, array_line, strcat_main, snprintf_main, sprintf_num_main, negative_main,
}

-- The literal has five bytes, and eight are read.
run_strcat : strcat_main ≡ trap
unfolding strcat_main
run_strcat = refl

run_line : array_line s2 5 ≡ value (codes "0:T:54 1:h:68 2:i:69 3:s:73 4:\0:0 \n")
unfolding array_line print_int
run_line = refl

run_snprintf : snprintf_main 8 ≡ value (codes "sizeof(a):8\nsizeof(b):10\nsizeof(char):1\nba\nb\n")
unfolding snprintf_main print_int
run_snprintf = refl

run_sprintf_num : sprintf_num_main ≡ codes "98\n2\n"
unfolding sprintf_num_main print_int
run_sprintf_num = refl

run_negative :
    negative_main
    ≡ codes "!negative is positive: 0\nshould not print. : 0 \nshould be positive: 1\n"
unfolding negative_main print_int
run_negative = refl
