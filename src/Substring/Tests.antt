-- ===== src/Substring/Tests.antt =====
-- Runs of 3-longest-substring-without-repeating-characters.c on texts of the source's `main`.
use good_command.Common.{ℕ, ◌≡◌, refl, List, [], ◌∷◌, arith, length, value, trap, Yields}
use good_command.Substring.{find_loop, next_start, window_loop, length_of_longest_substring}
use good_command.Substring.Longest.{
  LongestBefore, IsAscii, length_of_longest_substring-LongestBefore,
}

abbrev dvdf : List ℕ
dvdf = b'd' ∷ b'v' ∷ b'd' ∷ b'f' ∷ []

abbrev pwwkew : List ℕ
pwwkew = b'p' ∷ b'w' ∷ b'w' ∷ b'k' ∷ b'e' ∷ b'w' ∷ []

run_dvdf : length_of_longest_substring dvdf ≡ value 3
unfolding length_of_longest_substring window_loop next_start find_loop
run_dvdf = refl

run_pwwkew : length_of_longest_substring pwwkew ≡ value 3
unfolding length_of_longest_substring window_loop next_start find_loop
run_pwwkew = refl

-- A byte from 128 on is negative as a `char`, and so is its index.
run_negative : length_of_longest_substring (200 ∷ []) ≡ trap
unfolding length_of_longest_substring window_loop
run_negative = refl

dvdf-IsAscii : IsAscii dvdf
dvdf-IsAscii = (omega arith, (omega arith, (omega arith, (omega arith, tt))))

length_of_longest_substring-LongestBefore_example :
    Yields (LongestBefore dvdf (length dvdf)) (length_of_longest_substring dvdf)
length_of_longest_substring-LongestBefore_example =
    length_of_longest_substring-LongestBefore dvdf dvdf-IsAscii
