-- ===== src/Words.antt =====
-- source/src/leetcode/151-reverse-words-in-a-string.c: the words of a text in reverse order, by a scan
-- from its end; strncpy copies bytes that are not NUL. `k` is the source's `i + 1`, the number of bytes that are still to the left.
pub mod Split
pub mod Scan
pub mod Reverse
pub mod Main
mod Tests
use good_command.Common.{
  ℕ, zero, suc, ◌+◌, ◌-◌, Bool, true, false, List, [], ◌∷◌, ltb, ◌==◌, if◌then◌else◌, length,
  get_or, set, take, drop, replicate, Exec, value, trap, no_fuel, ◌>>=◌,
}
use good_command.Clib.Bytes.{store, write_bytes}

abbrev pub char_at : List ℕ → ℕ → ℕ
char_at s i = get_or s i 0

-- The loop over the blanks to the left of `k`.
unfoldable pub skip_blanks : List ℕ → ℕ → ℕ
skip_blanks s zero = 0
skip_blanks s (suc i) = if char_at s i == b' ' then skip_blanks s i else suc i

-- The loop over the word to the left of `k`: where the word begins.
unfoldable pub word_begin : List ℕ → ℕ → ℕ
word_begin s zero = 0
word_begin s (suc i) = if char_at s i == b' ' then suc i else word_begin s i

unfoldable pub words_loop : List ℕ → (rounds k j : ℕ) → List ℕ → Exec (List ℕ)
words_loop s zero k j r = no_fuel
words_loop s (suc rounds) zero j r = value r
words_loop s (suc rounds) (suc i) j r =
    let word_end = skip_blanks s (suc i) in
    let from = word_begin s word_end in
    let j' = if j == 0 then 0 else j + 1 in
    if word_end == 0 then value r else do
      r₁ ← if j == 0 then value r else store r j b' '
      r₂ ← write_bytes r₁ j' (take (word_end - from) (drop from s))
      words_loop s rounds (from - 1) (j' + (word_end - from)) r₂

-- The buffer that is returned: `len + 1` bytes, cleared at first. A round reads a byte or more.
unfoldable pub reverse_words : List ℕ → Exec (List ℕ)
reverse_words s =
    let r = replicate (length s + 1) 0 in
    if length s == 0 then value r else words_loop s (length s + 1) (length s) 0 r
