-- ===== src/Digest.antt =====
-- source/src/sha256/: sha1.c and sha256.c, which print the digest of a text in hexadecimal digits.
pub mod Laws
mod Tests
use good_command.Common.{
  ℕ, ◌+◌, ◌-◌, ◌/◌, ◌%◌, List, [], ◌∷◌, ◌++◌, ltb, if◌then◌else◌, zero, suc, length, replicate,
  get_elem?, match_option, Exec, value, trap, ◌>>=◌,
}
use good_command.Clib.Bytes.{codes}

-- A digit of `%x`
unfoldable pub hex_digit : ℕ → ℕ
hex_digit n = if ltb n 10 then b'0' + n else b'a' + (n - 10)

-- The loop, `%02x` of each of the `rounds` bytes from `i` on; a read outside the array traps.
unfoldable pub print_bytes : (rounds i : ℕ) → List ℕ → Exec (List ℕ)
unfolding hex_digit
print_bytes zero i buf = value []
print_bytes (suc rounds) i buf =
    let rest = print_bytes rounds (i + 1) buf in
    match_option (get_elem? buf i) trap
      (λ c. rest >>= λ text. value (hex_digit (c / 16) ∷ hex_digit (c % 16) ∷ text))

-- The bytes that a function writes from the start of an array of `size`.
unfoldable pub stored : ℕ → List ℕ → Exec (List ℕ)
stored size bytes = if ltb size (length bytes) then trap else value bytes

-- The functions of OpenSSL: the bytes that they write for those they are given. The array of sha1.c has
-- no value behind them, that of sha256.c has zeros.
unfoldable pub sha1_main : (List ℕ → List ℕ) → Exec (List ℕ)
unfolding print_bytes stored
sha1_main sha1 = do
  obuf ← stored 20 (sha1 (codes "compute sha1"))
  text ← print_bytes 20 0 obuf
  value (text ++ 10 ∷ [])

unfoldable pub sha256_main : (List ℕ → List ℕ) → Exec (List ℕ)
unfolding print_bytes stored
sha256_main sha256 = do
  written ← stored 65 (sha256 (codes "string"))
  text ← print_bytes 32 0 (written ++ replicate (65 - length written) 0)
  value (text ++ 10 ∷ [])
