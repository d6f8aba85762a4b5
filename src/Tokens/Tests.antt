-- ===== src/Tokens/Tests.antt =====
-- The text of as.c, "123 ab 4".
use good_command.Common.{ℕ, ◌≡◌, refl, List, [], ◌∷◌, value, Yields}
use good_command.Common.Int.{pos}
use good_command.Clib.Scan.{scan_int}
use good_command.Tokens.{number, skip, at_eof, scan_loop, tokens}
use good_command.Tokens.Laws.{Complete, tokens-Complete}

abbrev sample : List ℕ
sample = b'1' ∷ b'2' ∷ b'3' ∷ b' ' ∷ b'a' ∷ b'b' ∷ b' ' ∷ b'4' ∷ []

run_main :
    tokens sample
    ≡ value (number (pos 123) 3 ∷ skip b' ' ∷ skip b'a' ∷ skip b'b' ∷ number (pos 4) 2 ∷ [])
unfolding tokens scan_loop scan_int at_eof
run_main = refl

tokens-Complete_example : Yields (Complete sample) (tokens sample)
tokens-Complete_example = tokens-Complete sample
