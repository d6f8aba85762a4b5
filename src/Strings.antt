-- ===== src/Strings.antt =====
-- source/src/leetcode/: strcat.c, snprintf.c, sprintf_num.c and negative.c, which show what a function
-- of the C library or an operator does.
mod Laws
mod Tests
use good_command.Common.{
  ℕ, zero, suc, ◌+◌, ◌-◌, ◌/◌, ◌%◌, Bool, true, false, List, [], ◌∷◌, ◌++◌, ltb, if◌then◌else◌,
  length, take, drop, replicate, get_elem?, match_option, Exec, value, trap, ◌>>=◌,
}
use good_command.Common.Int.{ℤ, pos, negsuc, ◌==ℤ◌}
use good_command.Clib.Bytes.{codes, c_string}
use good_command.Clib.Print.{print_int}
use good_command.Clib.Strcmp.{strcmp}
use good_command.Digest.{hex_digit}
use good_command.Palindrome.{format}

-- `%x` of a byte
unfoldable pub print_hex : ℕ → List ℕ
unfolding hex_digit
print_hex c = if ltb c 16 then hex_digit c ∷ [] else hex_digit (c / 16) ∷ hex_digit (c % 16) ∷ []

-- `%d:%c:%x ` for the `n` bytes of an array from `i` on; a read outside it traps.
unfoldable pub array_bytes : List ℕ → ℕ → ℕ → Exec (List ℕ)
unfolding print_hex
array_bytes s i zero = value []
array_bytes s i (suc n) = match_option (get_elem? s i) trap λ c. array_bytes s (i + 1) n >>= λ rest.
    value (print_int (pos i) ++ (b':' ∷ c ∷ b':' ∷ print_hex c ++ b' ' ∷ rest))

unfoldable pub array_line : List ℕ → ℕ → Exec (List ℕ)
unfolding array_bytes
array_line s n = array_bytes s 0 n >>= λ text. value (text ++ 10 ∷ [])

-- `printf` with a name and a number.
unfoldable pub named : List ℕ → ℤ → List ℕ
named name v = name ++ (print_int v ++ 10 ∷ [])

-- The text in an array, which `strcmp` and `strlen` read; without a NUL they read past it.
unfoldable pub text_of : List ℕ → Exec (List ℕ)
unfolding c_string
text_of s = match_option (c_string s) trap value

abbrev pub s1 : List ℕ
s1 = codes "This" ++ replicate 6 0

abbrev pub s2 : List ℕ
s2 = codes "This" ++ 0 ∷ []

unfoldable pub strcat_main : Exec (List ℕ)
unfolding text_of named array_line strcmp
strcat_main = do
  t1 ← text_of s1
  t2 ← text_of s2
  l1 ← array_line s1 10
  l2 ← array_line s2 8
  l3 ← array_line s2 5
  value (
      named (codes "s1 vs s2: ") (strcmp t1 t2)
      ++ (named (codes "s1 vs s3: ") (strcmp t1 t2)
          ++ (named (codes "s2 vs s3: ") (strcmp t2 t2)
              ++ (named (codes "s1 vs s4: ") (strcmp t1 t2)
                  ++ (l1
                      ++ (l2
                          ++ (l3
                              ++ (l3
                                  ++ 10
                                    ∷ (named (codes "s1 len:") (pos (length t1))
                                        ++ (named (codes "s2 len:") (pos (length t2))
                                            ++ (named (codes "s3 len:") (pos (length t2))
                                                ++ named (codes "s4 len:")
                                                    (pos (length t2)))))))))))))

-- `snprintf (a, size, text)` for an array that is large enough.
unfoldable pub cut : ℕ → List ℕ → Exec (List ℕ)
unfolding format
cut size text = format false text >>= λ t. value (take (size - 1) t)

-- By the size of a pointer.
unfoldable pub snprintf_main : ℕ → Exec (List ℕ)
unfolding cut named
snprintf_main pointer = do
  first ← cut 3 (drop 2 (codes "babad"))
  second ← cut 2 (drop 1 (codes "cbbd"))
  value (
      named (codes "sizeof(a):") (pos pointer)
      ++ (named (codes "sizeof(b):") (pos 10)
          ++ (named (codes "sizeof(char):") (pos 1) ++ (first ++ 10 ∷ second ++ 10 ∷ []))))

-- The text of `%d`, and the number of its bytes for `%n`.
unfoldable pub sprintf_num_main : List ℕ
sprintf_num_main = let b = print_int (pos 98) in b ++ 10 ∷ print_int (pos (length b)) ++ 10 ∷ []

-- `!a`
unfoldable pub logical_not : ℤ → ℤ
logical_not a = if a ==ℤ pos 0 then pos 1 else pos 0

unfoldable pub negative_main : List ℕ
unfolding logical_not named
negative_main =
    named (codes "!negative is positive: ") (logical_not (negsuc 0))
    ++ (codes "should not print. : "
        ++ (print_int (logical_not (pos 1))
            ++ (codes " \n" ++ named (codes "should be positive: ") (logical_not (pos 0)))))
