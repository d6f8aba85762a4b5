-- ===== src/Palindrome/Symmetry.antt =====
-- Palindromes by where they begin and how long they are, and by their centre.
use good_command.Common.{
  ℕ, ◌+◌, ◌-◌, ◌*◌, ◌≤◌, ◌<◌, ◌≡◌, sym, ap, ◌∙◌, inl, inr, List, arith, ltb, Bool-cases, length,
}
use good_command.Palindrome.{char_at}
use good_command.Palindrome.Expand.{Mirror, odd_right, even_right}

-- The `n` bytes from `a` read the same from both ends.
pub record PalindromeAt (s : List ℕ) (a n : ℕ) : Type 0 where
  pub within : a + n ≤ length s
  pub same : (j : ℕ) → j < n → char_at s (a + j) ≡ char_at s (a + n - 1 - j)

pub at : (s : List ℕ) {i j : ℕ} → i ≡ j → char_at s i ≡ char_at s j
at s e = ap (char_at s) e

pub odd-PalindromeAt :
    (s : List ℕ) (c k : ℕ) → 1 ≤ k → Mirror s c (odd_right c) k → PalindromeAt s (c + 1 - k) (2 * k)
odd-PalindromeAt s c k pos h =
    let outer = h (k - 1) (omega arith) in
    record {
      within = omega (arith, outer.0, outer.1);
      same = λ j lt. elim (Bool-cases (ltb j k)) [
        | inl left ↦
            let m = h (k - 1 - j) (ground arith) in
            at s (ground (arith, outer.0)) ∙ m.2 ∙ at s (ground (arith, outer.0))
        | inr right ↦
            let m = h (j - k) (ground arith) in
            at s (ground (arith, outer.0)) ∙ sym m.2 ∙ at s (ground (arith, outer.0))
      ];
    }

pub even-PalindromeAt :
    (s : List ℕ) (c k : ℕ)
    → 1 ≤ k
    → Mirror s c (even_right c) k
    → PalindromeAt s (c + 1 - k) (2 * k - 1)
even-PalindromeAt s c k pos h =
    let outer = h (k - 1) (omega arith) in
    record {
      within = omega (arith, outer.0, outer.1);
      same = λ j lt. elim (Bool-cases (ltb j k)) [
        | inl left ↦
            let m = h (k - 1 - j) (ground arith) in
            at s (ground (arith, outer.0)) ∙ m.2 ∙ at s (ground (arith, outer.0))
        | inr right ↦
            let m = h (j + 1 - k) (ground arith) in
            at s (ground (arith, outer.0)) ∙ sym m.2 ∙ at s (ground (arith, outer.0))
      ];
    }

pub PalindromeAt-odd :
    (s : List ℕ) (a k : ℕ)
    → 1 ≤ k
    → PalindromeAt s a (2 * k)
    → Mirror s (a + k - 1) (odd_right (a + k - 1)) k
PalindromeAt-odd s a k pos p j lt = (
  omega arith,
  omega (arith, p.within),
  at s (omega arith) ∙ p.same (k - 1 - j) (omega arith) ∙ at s (omega arith),
)

pub PalindromeAt-even :
    (s : List ℕ) (a k : ℕ)
    → 1 ≤ k
    → PalindromeAt s a (2 * k - 1)
    → Mirror s (a + k - 1) (even_right (a + k - 1)) k
PalindromeAt-even s a k pos p j lt = (
  omega arith,
  omega (arith, p.within),
  at s (omega arith) ∙ p.same (k - 1 - j) (omega arith) ∙ at s (omega arith),
)
