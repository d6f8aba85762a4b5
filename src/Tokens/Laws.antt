-- ===== src/Tokens/Laws.antt =====
-- The loop of as.c ends on every text, and what it prints accounts for the text.
use good_command.Common.{
  option-cases, ℕ, zero, suc, ◌+◌, ◌<◌, ◌≡◌, refl, inl, inr, true, none, some, List, [], ◌∷◌, arith,
  Bool-cases, length, length-drop, drop, Yields, Yields-bind,
}
use good_command.Clib.Scan.{scan_int}
use good_command.Clib.Scan.Laws.{scan_int-reads}
use good_command.Tokens.{Token, number, skip, at_eof, scan_loop, tokens}

-- The text that the tokens leave, if each is where it was read.
abbrev pub rest : List ℕ → List Token → List ℕ
rest s [] = s
rest s (number v n ∷ ts) = rest (drop n s) ts
rest s (skip c ∷ ts) = rest (drop 1 s) ts

-- Each token is what stands in front of the text at its place: a number that sscanf reads, or else the
-- byte there.
abbrev pub Read : List ℕ → List Token → Type 0
Read s [] = Unit {0}
Read s (number v n ∷ ts) = (scan_int s ≡ some (v, n)) × Read (drop n s) ts
Read s (skip c ∷ ts) = ((scan_int s ≡ none) × (s ≡ c ∷ drop 1 s)) × Read (drop 1 s) ts

abbrev pub Complete : List ℕ → List Token → Type 0
Complete s ts = Read s ts × (at_eof (rest s ts) ≡ true)

at_eof-nil : at_eof [] ≡ true
unfolding at_eof
at_eof-nil = refl

scan_loop-Complete :
    (rounds : ℕ) (s : List ℕ) → length s < rounds → Yields (Complete s) (scan_loop rounds s)
unfolding scan_loop
scan_loop-Complete zero s lt = absurd (omega arith)
scan_loop-Complete (suc rounds) [] lt = (tt, at_eof-nil)
scan_loop-Complete (suc rounds) (c ∷ s) lt = elim (option-cases (scan_int (c ∷ s))) [
  | inl failed ↦ elim (Bool-cases (at_eof (c ∷ s))) [
    | inl eof ↦ rw (failed, eof) (tt, eof)
    | inr more ↦
        rw (failed, more)
          (Yields-bind (Complete s) (Complete (c ∷ s)) (scan_loop rounds s) _
            (scan_loop-Complete rounds s (omega arith)) (λ ts h. (((failed, refl), h.0), h.1)))
  ]
  | inr ((v, n), found) ↦
      let some_byte = scan_int-reads (c ∷ s) v n found in
      let t = drop n (c ∷ s) in
      rw found (
        Yields-bind (Complete t) (Complete (c ∷ s)) (scan_loop rounds t) _
          (scan_loop-Complete rounds t (omega (arith, length-drop n (c ∷ s))))
          (λ ts h. ((found, h.0), h.1)))
]

-- The loop ends on every text, and reads it from left to right without a gap: each round takes the number
-- that sscanf finds, or one byte where it finds none, and at the end only white space is left.
pub tokens-Complete : (s : List ℕ) → Yields (Complete s) (tokens s)
unfolding tokens
tokens-Complete s = scan_loop-Complete (length s + 1) s (omega arith)
