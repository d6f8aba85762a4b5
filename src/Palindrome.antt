-- ===== src/Palindrome.antt =====
-- source/src/leetcode/5-longest-palindromic-substring.c: the longest palindrome in a text, by growing
-- one round every centre. The source calls `odd` what belongs to palindromes of even length, and
-- `even` what belongs to those of odd length; the names are kept.
pub mod Expand
pub mod Symmetry
pub mod Longest
pub mod Main
mod Tests
use good_command.Common.{
  ℕ, zero, suc, ◌+◌, ◌-◌, ◌*◌, ◌&&◌, Bool, true, false, List, [], ◌∷◌, ltb, leb, ◌==◌,
  if◌then◌else◌, length, get_or, take, drop, Exec, value, trap, no_fuel, ◌>>=◌,
}

abbrev pub char_at : List ℕ → ℕ → ℕ
char_at s i = get_or s i 0

-- The best step so far, and its centre.
abbrev pub Best : Type 0
Best = ℕ × ℕ

-- Both inner loops at the centre `i`; a palindrome of even length has its centre behind `i`.
unfoldable pub odd_loop : List ℕ → ℕ → (rounds step : ℕ) → Best → Exec Best
odd_loop s i zero step best = no_fuel
odd_loop s i (suc rounds) step best =
    if (leb step i && ltb (i + step + 1) (length s))
    then (if char_at s (i - step) == char_at s (i + step + 1)
        then odd_loop s i rounds (step + 1) (if leb best.0 (step + 1) then (step + 1, i) else best)
        else value best)
    else value best

unfoldable pub even_loop : List ℕ → ℕ → (rounds step : ℕ) → Best → Exec Best
even_loop s i zero step best = no_fuel
even_loop s i (suc rounds) step best =
    if (leb step i && ltb (i + step) (length s))
    then (if char_at s (i - step) == char_at s (i + step)
        then even_loop s i rounds (step + 1) (if leb best.0 (step + 1) then (step + 1, i) else best)
        else value best)
    else value best

-- The outer loop: `left` centres are to come.
unfoldable pub centre_loop : List ℕ → (left i : ℕ) → Best → Best → Exec (Best × Best)
centre_loop s zero i odd even = value (odd, even)
centre_loop s (suc left) i odd even = do
  odd' ← odd_loop s i (i + 2) 0 odd
  even' ← even_loop s i (i + 2) 0 even
  centre_loop s left (i + 1) odd' even'

-- What `snprintf` makes of a format without arguments, where `percent` says that a `%` has been read.
-- Any conversion but `%%` reads an argument that is not there.
unfoldable pub format : Bool → List ℕ → Exec (List ℕ)
format false [] = value []
format true [] = trap
format false (c ∷ s) =
    let conversion = format true s in
    let plain = format false s >>= λ t. value (c ∷ t) in if c == b'%' then conversion else plain
format true (c ∷ s) =
    let percent = format false s >>= λ t. value (b'%' ∷ t) in if c == b'%' then percent else trap

-- `snprintf (r, size, text)` into the 1001 bytes of the result.
unfoldable pub snprintf : ℕ → List ℕ → Exec (List ℕ)
unfolding format
snprintf size text = do
  t ← format false text
  let r = take (size - 1) t
  if ltb (length r) 1001 then value r else trap

unfoldable pub longest_palindrome : List ℕ → Exec (List ℕ)
longest_palindrome s = do
  (odd, even) ← centre_loop s (length s) 0 (0, 0) (0, 0)
  if length s == 0
      then value []
      else if leb even.0 odd.0
      then snprintf (odd.0 * 2 + 1) (drop (odd.1 + 1 - odd.0) s)
      else snprintf (even.0 * 2) (drop (even.1 + 1 - even.0) s)
