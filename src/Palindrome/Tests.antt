-- ===== src/Palindrome/Tests.antt =====
-- Runs of 5-longest-palindromic-substring.c, and witnesses.
use good_command.Common.{ℕ, ◌≡◌, refl, List, [], ◌∷◌, arith, value, trap, Yields}
use good_command.Clib.Bytes.{codes}
use good_command.Clib.Print.{print_int}
use good_command.Palindrome.Main
use good_command.Palindrome.{odd_loop, even_loop, centre_loop, snprintf, longest_palindrome}
use good_command.Palindrome.Longest.{LongestIn, longest_palindrome-LongestIn}

abbrev babad : List ℕ
babad = b'b' ∷ b'a' ∷ b'b' ∷ b'a' ∷ b'd' ∷ []

abbrev cbbd : List ℕ
cbbd = b'c' ∷ b'b' ∷ b'b' ∷ b'd' ∷ []

run_babad : longest_palindrome babad ≡ value (b'a' ∷ b'b' ∷ b'a' ∷ [])
unfolding longest_palindrome odd_loop even_loop centre_loop snprintf
run_babad = refl

run_cbbd : longest_palindrome cbbd ≡ value (b'b' ∷ b'b' ∷ [])
unfolding longest_palindrome odd_loop even_loop centre_loop snprintf
run_cbbd = refl

run_a : longest_palindrome (b'a' ∷ []) ≡ value (b'a' ∷ [])
unfolding longest_palindrome odd_loop even_loop centre_loop snprintf
run_a = refl

run_empty : longest_palindrome [] ≡ value []
unfolding longest_palindrome odd_loop even_loop centre_loop snprintf
run_empty = refl

-- A text that ends its palindrome in a `%` is read as a format.
run_percent : longest_palindrome (b'%' ∷ []) ≡ trap
unfolding longest_palindrome odd_loop even_loop centre_loop snprintf
run_percent = refl

longest_palindrome-LongestIn_example : Yields (LongestIn babad) (longest_palindrome babad)
longest_palindrome-LongestIn_example =
    longest_palindrome-LongestIn babad (omega arith) (refl, (refl, (refl, (refl, (refl, tt)))))

run_main :
    Main.main
    ≡ value (
        codes
          "babad, even, index:0, even_length:2\naba\ncbbd, odd, index:0, odd_length:1\nbb\na, even, index:0, even_length:1\na\n")
unfolding Main.main longest_palindrome odd_loop even_loop centre_loop snprintf print_int
run_main = refl
