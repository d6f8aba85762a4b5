-- ===== src/Tokens.antt =====
-- source/src/leetcode/as.c: all numbers of a text, read one after the other by sscanf with "%d%n".
pub mod Laws
mod Tests
use good_command.Common.{
  ℕ, zero, suc, ◌+◌, Bool, true, false, List, [], ◌∷◌, ◌==◌, if◌then◌else◌, length, drop,
  match_option, Exec, value, no_fuel, ◌>>=◌,
}
use good_command.Common.Int.{ℤ}
use good_command.Clib.Scan.{spaces, scan_int}

-- What a round prints: a number and the bytes it took, or the byte that is skipped.
pub data Token : Type 0 where
  number : ℤ → ℕ → Token
  skip : ℕ → Token

-- Only white space is left, so sscanf returns EOF.
unfoldable pub at_eof : List ℕ → Bool
unfolding spaces
at_eof s = spaces s == length s

unfoldable pub scan_loop : ℕ → List ℕ → Exec (List Token)
unfolding scan_int at_eof
scan_loop zero s = no_fuel
scan_loop (suc rounds) [] = value []
scan_loop (suc rounds) (c ∷ s) =
    let skipped = scan_loop rounds s >>= λ r. value (skip c ∷ r) in
    let read : ℤ × ℕ → Exec (List Token) = λ found.
      scan_loop rounds (drop found.1 (c ∷ s)) >>= λ r. value (number found.0 found.1 ∷ r) in
    match_option (scan_int (c ∷ s)) (if at_eof (c ∷ s) then value [] else skipped) read

-- The loop of `main`: every round but the last takes a byte or more.
unfoldable pub tokens : List ℕ → Exec (List Token)
tokens s = scan_loop (length s + 1) s
