-- ===== src/Substring.antt =====
-- source/src/leetcode/3-longest-substring-without-repeating-characters.c: the length of a longest run
-- of the text in which no byte occurs twice, by a window that moves over the text.
pub mod Window
pub mod Longest
mod Tests
use good_command.Common.{
  ℕ, zero, suc, ◌+◌, ◌-◌, Bool, true, false, List, leb, ltb, ◌==◌, if◌then◌else◌, length, get_or,
  set, replicate, Exec, value, trap,
}

abbrev pub char_at : List ℕ → ℕ → ℕ
char_at s i = get_or s i 0

-- The loop from `i` to the first byte that is the one at `end`; `rounds` is `end - i`.
unfoldable pub find_loop : List ℕ → (end rounds i : ℕ) → ℕ
find_loop s end zero i = i
find_loop s end (suc rounds) i =
    if char_at s i == char_at s end then i else find_loop s end rounds (i + 1)

-- The start of the window when the byte at `end` has been seen before.
unfoldable pub next_start : List ℕ → (start end : ℕ) → ℕ
unfolding find_loop
next_start s start end =
    let i = find_loop s end (end - start) start in if i == end then start else i + 1

-- The main loop: `left` bytes are to come. `char` is signed, so a byte from 128 on is a negative
-- index into `map`.
unfoldable pub window_loop : (s : List ℕ) (left end start maxlength : ℕ) (map : List ℕ) → Exec ℕ
window_loop s zero end start maxlength map = value maxlength
window_loop s (suc left) end start maxlength map =
    let c = char_at s end in
    let next : ℕ → List ℕ → Exec ℕ = λ start' map'.
      window_loop s left (end + 1) start'
        (if ltb (end + 1 - start') maxlength then maxlength else end + 1 - start') map' in
    let seen = next (next_start s start end) map in
    let new = next start (set map c 1) in
    let other = next start map in
    if leb 128 c
    then trap
    else if get_or map c 0 == 1
    then seen
    else if get_or map c 0 == 0
    then new
    else other

unfoldable pub length_of_longest_substring : List ℕ → Exec ℕ
length_of_longest_substring s = window_loop s (length s) 0 0 0 (replicate 256 0)
