-- ===== src/Words/Tests.antt =====
-- Runs of 151-reverse-words-in-a-string.c, and a reading of its specification.
use good_command.Common.{
  ℕ, ◌+◌, ◌≡◌, refl, List, [], ◌∷◌, replicate, reverse, length, value, Yields,
}
use good_command.Clib.Bytes.{codes}
use good_command.Clib.Print.{print_int}
use good_command.Words.Main
use good_command.Words.Reverse.{IsText, reverse_words-join}
use good_command.Clib.Bytes.{store, write_bytes}
use good_command.Words.{skip_blanks, word_begin, words_loop, reverse_words}
use good_command.Words.Split.{words, join}

-- "  hi  a "
abbrev hi_a : List ℕ
hi_a = b' ' ∷ b' ' ∷ b'h' ∷ b'i' ∷ b' ' ∷ b' ' ∷ b'a' ∷ b' ' ∷ []

run_hi_a : reverse_words hi_a ≡ value (b'a' ∷ b' ' ∷ b'h' ∷ b'i' ∷ replicate 5 0)
unfolding reverse_words words_loop write_bytes store word_begin skip_blanks
run_hi_a = refl

run_blank : reverse_words (b' ' ∷ []) ≡ value (replicate 2 0)
unfolding reverse_words words_loop write_bytes store word_begin skip_blanks
run_blank = refl

words-hi_a : words hi_a ≡ (b'h' ∷ b'i' ∷ []) ∷ (b'a' ∷ []) ∷ []
words-hi_a = refl

reverse_words-join_example :
    Yields (IsText (length hi_a + 1) (join (reverse (words hi_a)))) (reverse_words hi_a)
reverse_words-join_example = reverse_words-join hi_a

run_two_cases :
    Main.run_cases 0 (codes " a" ∷ codes "a" ∷ [])
    ≡ value (codes "case:0 input: a\nmemmory:0:a 1:\0 \n\ncase:1 input:a\nmemmory:0:a \n\n")
unfolding Main.run_cases reverse_words words_loop write_bytes store word_begin skip_blanks print_int
run_two_cases = refl
