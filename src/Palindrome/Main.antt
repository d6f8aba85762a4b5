-- ===== src/Palindrome/Main.antt =====
-- What 5-longest-palindromic-substring.c prints.
use good_command.Common.{
  ℕ, List, [], ◌∷◌, ◌++◌, leb, ◌==◌, if◌then◌else◌, length, Exec, value, ◌>>=◌,
}
use good_command.Common.Int.{pos}
use good_command.Clib.Bytes.{codes}
use good_command.Clib.Print.{print_int}
use good_command.Palindrome.{centre_loop, longest_palindrome}

-- The first line; the index in it is never set.
unfoldable pub step_line : List ℕ → List ℕ → ℕ → List ℕ
step_line s kind step =
    s
    ++ (codes ", "
        ++ (kind
            ++ (codes ", index:0, "
                ++ (kind ++ (codes "_length:" ++ (print_int (pos step) ++ 10 ∷ []))))))

-- Nothing is printed for the empty text.
unfoldable pub longest_palindrome_prints : List ℕ → Exec (List ℕ)
unfolding step_line
longest_palindrome_prints s = do
  (odd, even) ← centre_loop s (length s) 0 (0, 0) (0, 0)
  r ← longest_palindrome s
  let line =
      if leb even.0 odd.0
      then step_line s (codes "odd") odd.0
      else step_line s (codes "even") even.0
  value (if length s == 0 then [] else line ++ (r ++ 10 ∷ []))

unfoldable pub run_all : List (List ℕ) → Exec (List ℕ)
unfolding longest_palindrome_prints
run_all [] = value []
run_all (s ∷ texts) = do
  text ← longest_palindrome_prints s
  rest ← run_all texts
  value (text ++ rest)

unfoldable pub main : Exec (List ℕ)
unfolding run_all
main = run_all (codes "babad" ∷ codes "cbbd" ∷ codes "a" ∷ [] ∷ [])
