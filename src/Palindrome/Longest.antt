-- ===== src/Palindrome/Longest.antt =====
-- The result of 5-longest-palindromic-substring.c is a palindrome of the text, and none is longer.
use mathlib.Core.Path.{subst}
use mathlib.Core.Logic.{◌⊎◌}
use good_command.Common.{
  ℕ, zero, suc, ◌+◌, ◌-◌, ◌*◌, ◌/◌, ◌%◌, ◌≤◌, ◌<◌, ◌≡◌, refl, sym, inl, inr, true, false, List, [],
  ◌∷◌, arith, ltb, leb, ◌==◌, Bool-cases, length, take, drop, length-take-le, value, Yields,
  Yields-bind,
}
use good_command.Palindrome.{
  Best, odd_loop, even_loop, centre_loop, format, snprintf, longest_palindrome,
}
use good_command.Palindrome.Expand.{
  Mirror, odd_right, even_right, Grown, odd_loop-Grown, even_loop-Grown,
}
use good_command.Palindrome.Symmetry.{
  PalindromeAt, at, odd-PalindromeAt, even-PalindromeAt, PalindromeAt-odd, PalindromeAt-even,
}

-- Both best palindromes, as wide as any round the first `n` centres.
record Found (s : List ℕ) (n : ℕ) (best : Best × Best) : Type 0 where
  odd_mirrors : Mirror s best.0.1 (odd_right best.0.1) best.0.0
  even_mirrors : Mirror s best.1.1 (even_right best.1.1) best.1.0
  odd_widest : (c m : ℕ) → c < n → Mirror s c (odd_right c) m → m ≤ best.0.0
  even_widest : (c m : ℕ) → c < n → Mirror s c (even_right c) m → m ≤ best.1.0

widest-suc :
    (s : List ℕ) (right : ℕ → ℕ → ℕ) (i : ℕ) (old best : Best)
    → Grown s right i old best
    → ((c m : ℕ) → c < i → Mirror s c (right c) m → m ≤ old.0)
    → (c m : ℕ) → c < i + 1
    → Mirror s c (right c) m
    → m ≤ best.0
widest-suc s right i old best g before c m lt h = elim (Bool-cases (c == i)) [
  | inl same ↦ let e : c ≡ i = ground arith in g.widest m (subst (λ d. Mirror s d (right d) m) e h)
  | inr other ↦ omega (arith, before c m (ground arith) h, g.wider)
]

centre_loop-Found :
    (s : List ℕ) (left i n : ℕ) (odd even : Best)
    → i + left ≡ n
    → Found s i (odd, even)
    → Yields (Found s n) (centre_loop s left i odd even)
unfolding centre_loop
centre_loop-Found s zero i n odd even e f =
    let e' : i ≡ n = omega arith in subst (λ m. Found s m (odd, even)) e' f
centre_loop-Found s (suc left) i n odd even e f =
    Yields-bind (Grown s odd_right i odd) (Found s n) (odd_loop s i (i + 2) 0 odd) _
      (odd_loop-Grown s i (i + 2) 0 odd (λ j lt. absurd (omega arith)) f.odd_mirrors (omega arith)
        (omega arith))
      λ odd' g.
        Yields-bind (Grown s even_right i even) (Found s n) (even_loop s i (i + 2) 0 even) _
          (even_loop-Grown s i (i + 2) 0 even (λ j lt. absurd (omega arith)) f.even_mirrors
            (omega arith) (omega arith))
          λ even' g'. centre_loop-Found s left (i + 1) n odd' even' (omega arith) record {
            odd_mirrors = g.mirrors;
            even_mirrors = g'.mirrors;
            odd_widest = widest-suc s odd_right i odd odd' g f.odd_widest;
            even_widest = widest-suc s even_right i even even' g' f.even_widest;
          }

-- No palindrome is longer than both that have been found.
Found-longest :
    (s : List ℕ) (best : Best × Best) (a n : ℕ)
    → Found s (length s) best
    → PalindromeAt s a n
    → (n ≤ 2 * best.0.0) ⊎ (n + 1 ≤ 2 * best.1.0)
Found-longest s best a zero f p = inl (omega arith)
Found-longest s best a (suc n) f p = elim (Bool-cases (suc n % 2 == 0)) [
  | inl is_even ↦
      let k = suc n / 2 in
      let e : suc n ≡ 2 * k = ground arith in
      inl (
        omega (
          arith,
          f.odd_widest (a + k - 1) k (omega (arith, p.within))
              (PalindromeAt-odd s a k (omega arith) (subst (PalindromeAt s a) e p)),
        ))
  | inr is_odd ↦
      let k = suc n / 2 + 1 in
      let e : suc n ≡ 2 * k - 1 = ground arith in
      inr (
        omega (
          arith,
          f.even_widest (a + k - 1) k (omega (arith, p.within))
              (PalindromeAt-even s a k (omega arith) (subst (PalindromeAt s a) e p)),
        ))
]

-- `r` stands in `s`, is a palindrome, and no palindrome of `s` is longer.
pub record LongestIn (s r : List ℕ) : Type 0 where
  pub from : ℕ
  pub size : ℕ
  pub result : r ≡ take size (drop from s)
  pub palindrome : PalindromeAt s from size
  pub longest : (a n : ℕ) → PalindromeAt s a n → n ≤ size

-- No byte of the text is a `%`.
abbrev pub NoPercent : List ℕ → Type 0
NoPercent [] = Unit {0}
NoPercent (c ∷ s) = ((c == b'%') ≡ false) × NoPercent s

NoPercent-drop : (n : ℕ) (s : List ℕ) → NoPercent s → NoPercent (drop n s)
NoPercent-drop zero s h = h
NoPercent-drop (suc n) [] h = tt
NoPercent-drop (suc n) (c ∷ s) h = NoPercent-drop n s h.1

format-NoPercent : (s : List ℕ) → NoPercent s → format false s ≡ value s
unfolding format
format-NoPercent [] h = refl
format-NoPercent (c ∷ s) h = rw (h.0, format-NoPercent s h.1) refl

snprintf-take :
    (size : ℕ) (s : List ℕ)
    → NoPercent s
    → size ≤ 1001
    → snprintf size s ≡ value (take (size - 1) s)
unfolding snprintf
snprintf-take size s h small =
    let fits : ltb (length (take (size - 1) s)) 1001 ≡ true =
      ground (arith, length-take-le (size - 1) s) in
    rw (format-NoPercent s h) (rw fits refl)

longest_odd :
    (s : List ℕ) (best : Best × Best)
    → length s ≤ 1000
    → NoPercent s
    → Found s (length s) best
    → (1 ≤ best.0.0) × (best.1.0 ≤ best.0.0)
    → Yields (LongestIn s) (snprintf (best.0.0 * 2 + 1) (drop (best.0.1 + 1 - best.0.0) s))
longest_odd s best small plain f wide =
    let from = best.0.1 + 1 - best.0.0 in
    let p = odd-PalindromeAt s best.0.1 best.0.0 wide.0 f.odd_mirrors in
    let e : best.0.0 * 2 + 1 - 1 ≡ 2 * best.0.0 = omega arith in
    rw
      (snprintf-take (best.0.0 * 2 + 1) (drop from s) (NoPercent-drop from s plain)
        (omega (arith, p.within)))
      record {
        from = from;
        size = best.0.0 * 2 + 1 - 1;
        result = refl;
        palindrome = subst (PalindromeAt s from) (sym e) p;
        longest = λ a n q. elim (Found-longest s best a n f q) [
          | inl le ↦ omega arith
          | inr le ↦ omega (arith, wide.1)
        ];
      }

longest_even :
    (s : List ℕ) (best : Best × Best)
    → length s ≤ 1000
    → NoPercent s
    → Found s (length s) best
    → 1 ≤ best.1.0
    → best.0.0 < best.1.0
    → Yields (LongestIn s) (snprintf (best.1.0 * 2) (drop (best.1.1 + 1 - best.1.0) s))
longest_even s best small plain f one wide =
    let from = best.1.1 + 1 - best.1.0 in
    let p = even-PalindromeAt s best.1.1 best.1.0 one f.even_mirrors in
    let e : best.1.0 * 2 - 1 ≡ 2 * best.1.0 - 1 = omega arith in
    rw
      (snprintf-take (best.1.0 * 2) (drop from s) (NoPercent-drop from s plain)
        (omega (arith, p.within)))
      record {
        from = from;
        size = best.1.0 * 2 - 1;
        result = refl;
        palindrome = subst (PalindromeAt s from) (sym e) p;
        longest = λ a n q. elim (Found-longest s best a n f q) [
          | inl le ↦ omega arith
          | inr le ↦ omega arith
        ];
      }

-- On a text of at most 1000 bytes without `%` the function ends, and its result is a longest
-- palindrome of the text.
pub longest_palindrome-LongestIn :
    (s : List ℕ) → length s ≤ 1000 → NoPercent s → Yields (LongestIn s) (longest_palindrome s)
unfolding longest_palindrome
longest_palindrome-LongestIn s small plain =
    Yields-bind (Found s (length s)) (LongestIn s) (centre_loop s (length s) 0 (0, 0) (0, 0)) _
      (centre_loop-Found s (length s) 0 (length s) (0, 0) (0, 0) (omega arith)
        record {
          odd_mirrors = λ j lt. absurd (omega arith);
          even_mirrors = λ j lt. absurd (omega arith);
          odd_widest = λ c m lt. absurd (omega arith);
          even_widest = λ c m lt. absurd (omega arith);
        })
      λ best f. elim (Bool-cases (length s == 0)) [
        | inl empty ↦ rw empty record {
          from = 0;
          size = 0;
          result = refl;
          palindrome = record { within = omega arith; same = λ j lt. absurd (omega arith) };
          longest = λ a n p. ground (arith, p.within);
        }
        | inr some_text ↦
            let one : 1 ≤ best.1.0 =
              f.even_widest 0 1 (ground arith)
                (λ j lt. (omega arith, ground arith, at s (omega arith))) in
            rw some_text (elim (Bool-cases (leb best.1.0 best.0.0)) [
              | inl odd ↦ rw odd (longest_odd s best small plain f (ground arith, ground arith))
              | inr even ↦ rw even (longest_even s best small plain f one (ground arith))
            ])
      ]
