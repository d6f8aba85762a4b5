-- ===== src/Words/Main.antt =====
-- `px` and `main` of 151-reverse-words-in-a-string.c.
use good_command.Common.{ℕ, zero, suc, ◌+◌, List, [], ◌∷◌, ◌++◌, length, take, Exec, value, ◌>>=◌}
use good_command.Common.Int.{pos}
use good_command.Clib.Bytes.{codes}
use good_command.Clib.Print.{print_int}
use good_command.Words.{char_at, reverse_words}

-- `%d:%c ` for the `n` bytes from `i` on.
unfoldable pub px_bytes : List ℕ → ℕ → ℕ → List ℕ
px_bytes s i zero = []
px_bytes s i (suc n) = print_int (pos i) ++ (b':' ∷ char_at s i ∷ b' ' ∷ px_bytes s (i + 1) n)

unfoldable pub px : List ℕ → ℕ → List ℕ
unfolding px_bytes
px s len = codes "memmory:" ++ (px_bytes s 0 len ++ 10 ∷ [])

-- The loop of `main`, from the case `i` on.
unfoldable pub run_cases : ℕ → List (List ℕ) → Exec (List ℕ)
unfolding px
run_cases i [] = value []
run_cases i (s ∷ ca) = do
  r ← reverse_words s
  rest ← run_cases (i + 1) ca
  value (
      codes "case:"
      ++ (print_int (pos i) ++ (codes " input:" ++ (s ++ 10 ∷ px r (length s) ++ 10 ∷ rest))))

abbrev pub ca : List (List ℕ)
ca =
    codes " a"
    ∷ codes "a"
    ∷ codes "the sky is blue"
    ∷ codes "  hello world!  "
    ∷ []
    ∷ codes " "
    ∷ []

-- The last case is not run.
unfoldable pub main : Exec (List ℕ)
unfolding run_cases
main = run_cases 0 (take 5 ca)
