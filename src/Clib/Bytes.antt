-- ===== src/Clib/Bytes.antt =====
-- Arrays of bytes, and the texts in them. A write outside an array traps.
pub mod Filled
pub mod Text
use Prim.Native.String.{String}
use Prim.Native.Char.{code}
use good_command.Common.{
  ℕ, zero, suc, ◌+◌, Bool, true, false, Option, none, some, List, [], ◌∷◌, ◌++◌, ltb, ◌==◌,
  if◌then◌else◌, length, set, match_option, Exec, value, trap, ◌>>=◌,
}

-- `r [j] = v`
unfoldable pub store : List ℕ → ℕ → ℕ → Exec (List ℕ)
store r j v = if ltb j (length r) then value (set r j v) else trap

-- The bytes of `w` from `j` on.
unfoldable pub write_bytes : List ℕ → ℕ → List ℕ → Exec (List ℕ)
unfolding store
write_bytes r j [] = value r
write_bytes r j (c ∷ w) = store r j c >>= λ r'. write_bytes r' (j + 1) w

-- `strcpy (r + j, w)` for a text `w`, with its NUL.
unfoldable pub strcpy : List ℕ → ℕ → List ℕ → Exec (List ℕ)
unfolding write_bytes
strcpy r j w = write_bytes r j (w ++ 0 ∷ [])

-- The text in an array, up to its NUL; `none` if it has no NUL.
unfoldable pub c_string : List ℕ → Option (List ℕ)
c_string [] = none
c_string (c ∷ s) = if c == 0 then some [] else match_option (c_string s) none (λ t. some (c ∷ t))

-- The bytes of a literal of ASCII characters.
abbrev pub codes : String → List ℕ
codes String.[] = []
codes (String.◌∷◌ c s) = code c ∷ codes s
