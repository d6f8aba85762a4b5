-- ===== src/Scanner.antt =====
-- source/src/leetcode/sscanf.c: the tokens of an expression, one to a line.
pub mod Laws
mod Tests
use good_command.Common.{
  ℕ, zero, suc, ◌+◌, ◌||◌, Bool, List, [], ◌∷◌, ◌++◌, ◌==◌, if◌then◌else◌, length, drop,
  match_option, Exec, value, no_fuel, ◌>>=◌,
}
use good_command.Common.Int.{ℤ}
use good_command.Clib.Bytes.{codes}
use good_command.Clib.Print.{print_int}
use good_command.Clib.Scan.{scan_int}

unfoldable pub is_legal_op : ℕ → Bool
is_legal_op c = c == b'+' || (c == b'-' || (c == b'*' || (c == b'/' || (c == b'(' || c == b')'))))

-- The loop at the text that is left, behind what is printed. A byte that starts no token is read
-- again for ever, since `%c` always finds a byte.
unfoldable pub token_loop : ℕ → (s out : List ℕ) → Exec (List ℕ)
token_loop zero s out = no_fuel
token_loop (suc fuel) [] out = value out
token_loop (suc fuel) (c ∷ s) out =
    let operator = token_loop fuel s (out ++ c ∷ 10 ∷ []) in
    let blank = token_loop fuel s out in
    let stuck = token_loop fuel (c ∷ s) out in
    let number = λ (found : ℤ × ℕ).
      token_loop fuel (drop found.1 (c ∷ s)) (out ++ (print_int found.0 ++ 10 ∷ [])) in
    if is_legal_op c
    then operator
    else if c == b' '
    then blank
    else match_option (scan_int (c ∷ s)) stuck number

-- What `main` prints for the text `s2`. Each round but the last takes a byte.
unfoldable pub print_tokens : List ℕ → Exec (List ℕ)
unfolding token_loop
print_tokens s2 = token_loop (length s2 + 1) s2 [] >>= λ out. value (out ++ 10 ∷ [])

unfoldable pub main : Exec (List ℕ)
main = print_tokens (codes "13-1  +2*30 +(4* 5 - 6 )*7")
