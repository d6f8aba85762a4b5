-- ===== src/Clib/Bytes/Text.antt =====
-- Texts in arrays: their bytes up to the NUL.
use good_command.Common.{
  ℕ, suc, ◌-◌, ◌<◌, ◌≡◌, refl, false, List, [], ◌∷◌, ◌++◌, none, some, arith, ◌==◌, length,
  replicate,
}
use good_command.Clib.Bytes.{c_string}
use good_command.Clib.Bytes.Filled.{filled}

-- No byte is NUL.
abbrev pub NoNul : List ℕ → Type 0
NoNul [] = Unit {0}
NoNul (c ∷ s) = ((c == 0) ≡ false) × NoNul s

pub NoNul-append : (s t : List ℕ) → NoNul s → NoNul t → NoNul (s ++ t)
NoNul-append [] t h k = k
NoNul-append (c ∷ s) t h k = (h.0, NoNul-append s t h.1 k)

pub c_string-append : (s rest : List ℕ) → NoNul s → c_string (s ++ 0 ∷ rest) ≡ some s
unfolding c_string
c_string-append [] rest h = refl
c_string-append (c ∷ s) rest h = rw (h.0, c_string-append s rest h.1) refl

pub c_string-NoNul : (s : List ℕ) → NoNul s → c_string s ≡ none
unfolding c_string
c_string-NoNul [] h = refl
c_string-NoNul (c ∷ s) h = rw (h.0, c_string-NoNul s h.1) refl

-- In a zeroed buffer the text ends where the writing ended.
pub c_string-filled :
    (n : ℕ) (out : List ℕ) → NoNul out → length out < n → c_string (filled n out) ≡ some out
c_string-filled n out h lt =
    let k = n - length out - 1 in
    let some_zero : n - length out ≡ suc k = omega arith in
    rw some_zero (c_string-append out (replicate k 0) h)
