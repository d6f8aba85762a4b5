-- ===== src/Words/Scan.antt =====
-- The two loops of the scan from the right: they take the last word off the text.
use good_command.Common.{
  ℕ, zero, suc, ◌+◌, ◌-◌, ◌≤◌, ◌<◌, ◌≡◌, refl, ◌∙◌, ap, inl, inr, false, List, [], ◌∷◌, ◌++◌,
  append_assoc, arith, ◌==◌, Bool-cases, length, take, drop, length-take, length-drop,
}
use good_command.Words.{char_at, skip_blanks, word_begin}
use good_command.Words.Split.{words, NoBlank, words-blank_end, words-one, words-word_end}

take-suc : (i : ℕ) (s : List ℕ) → i < length s → take (suc i) s ≡ take i s ++ char_at s i ∷ []
take-suc i [] lt = absurd (omega arith)
take-suc zero (c ∷ s) lt = refl
take-suc (suc i) (c ∷ s) lt = ap (λ t. c ∷ t) (take-suc i s (omega arith))

-- The blanks at the end add no word.
pub record IsSkipped (s : List ℕ) (k n : ℕ) : Type 0 where
  pub below : n ≤ k
  pub same : words (take k s) ≡ words (take n s)
  pub at_word : (i : ℕ) → n ≡ suc i → (char_at s i == b' ') ≡ false

pub skip_blanks-IsSkipped : (s : List ℕ) (k : ℕ) → k ≤ length s → IsSkipped s k (skip_blanks s k)
unfolding skip_blanks
skip_blanks-IsSkipped s zero le = record {
  below = omega arith;
  same = refl;
  at_word = λ i e. absurd (omega arith);
}
skip_blanks-IsSkipped s (suc k) le = elim (Bool-cases (char_at s k == b' ')) [
  | inl blank ↦
      let h = skip_blanks-IsSkipped s k (omega arith) in
      let e : char_at s k ≡ b' ' = ground arith in
      rw blank record {
        below = omega (arith, h.below);
        same =
            ap words (take-suc k s (omega arith) ∙ ap (λ c. take k s ++ c ∷ []) e)
            ∙ words-blank_end (take k s)
            ∙ h.same;
        at_word = h.at_word;
      }
  | inr word ↦ rw word record {
    below = omega arith;
    same = refl;
    at_word = λ i e. let e' : i ≡ k = omega arith in rw e' word;
  }
]

-- The word to the left of `k` begins at `n`, behind a blank or at the start of the text.
pub record IsWordFrom (s : List ℕ) (k n : ℕ) : Type 0 where
  pub below : n ≤ k
  pub no_blank : NoBlank (take (k - n) (drop n s))
  pub behind_blank : (i : ℕ) → n ≡ suc i → char_at s i ≡ b' '

drop-suc : (i : ℕ) (s : List ℕ) → i < length s → drop i s ≡ char_at s i ∷ drop (suc i) s
drop-suc i [] lt = absurd (omega arith)
drop-suc zero (c ∷ s) lt = refl
drop-suc (suc i) (c ∷ s) lt = drop-suc i s (omega arith)

NoBlank-append : (v w : List ℕ) → NoBlank v → NoBlank w → NoBlank (v ++ w)
NoBlank-append [] w h h' = h'
NoBlank-append (c ∷ v) w h h' = (h.0, NoBlank-append v w h.1 h')

take-drop-suc :
    (m n i : ℕ) (s : List ℕ)
    → n + m ≡ i
    → i < length s
    → take (suc m) (drop n s) ≡ take m (drop n s) ++ char_at s i ∷ []
take-drop-suc m zero i s e lt = let e' : i ≡ m = omega arith in rw e' (take-suc m s (omega arith))
take-drop-suc m (suc n) i [] e lt = absurd (omega arith)
take-drop-suc m (suc n) zero (c ∷ s) e lt = absurd (omega arith)
take-drop-suc m (suc n) (suc i) (c ∷ s) e lt = take-drop-suc m n i s (omega arith) (omega arith)

pub word_begin-IsWordFrom : (s : List ℕ) (k : ℕ) → k ≤ length s → IsWordFrom s k (word_begin s k)
unfolding word_begin
word_begin-IsWordFrom s zero le = record {
  below = omega arith;
  no_blank = tt;
  behind_blank = λ i e. absurd (omega arith);
}
word_begin-IsWordFrom s (suc k) le = elim (Bool-cases (char_at s k == b' ')) [
  | inl blank ↦
      let none : suc k - suc k ≡ 0 = omega arith in
      rw blank record {
        below = omega arith;
        no_blank = rw none tt;
        behind_blank = λ i e. let e' : i ≡ k = omega arith in rw e' (ground arith);
      }
  | inr word ↦
      let h = word_begin-IsWordFrom s k (omega arith) in
      let longer : suc k - word_begin s k ≡ suc (k - word_begin s k) = omega (arith, h.below) in
      rw word record {
        below = omega (arith, h.below);
        no_blank =
            rw
              (
                longer,
                take-drop-suc (k - word_begin s k) (word_begin s k) k s (omega (arith, h.below))
                    (omega arith),
              )
              (NoBlank-append (take (k - word_begin s k) (drop (word_begin s k) s))
                (char_at s k ∷ []) h.no_blank (word, tt));
        behind_blank = h.behind_blank;
      }
]

take_add : (a b n : ℕ) (s : List ℕ) → a + b ≡ n → take n s ≡ take a s ++ take b (drop a s)
take_add zero b n s e = let e' : n ≡ b = omega arith in rw e' refl
take_add (suc a) b zero s e = absurd (omega arith)
take_add (suc a) zero (suc n) [] e = refl
take_add (suc a) (suc b) (suc n) [] e = refl
take_add (suc a) b (suc n) (c ∷ s) e = ap (λ t. c ∷ t) (take_add a b n s (omega arith))

words-alone : (w : List ℕ) → NoBlank w → 0 < length w → words w ≡ w ∷ []
words-alone [] h pos = absurd (omega arith)
words-alone (c ∷ w) h pos = words-one c w h

words-last : (t w : List ℕ) → NoBlank w → 0 < length w → words (t ++ b' ' ∷ w) ≡ words t ++ w ∷ []
words-last t [] h pos = absurd (omega arith)
words-last t (c ∷ w) h pos = words-word_end t c w h

-- What one round takes off the text: its last word, between `from` and `n`.
pub record IsLast (s : List ℕ) (k n from : ℕ) : Type 0 where
  pub order : from < n
  pub inside : n ≤ k
  pub size : length (take (n - from) (drop from s)) ≡ n - from
  pub split : words (take k s) ≡ words (take (from - 1) s) ++ take (n - from) (drop from s) ∷ []

IsLast-at :
    (s : List ℕ) (k n from : ℕ)
    → k ≤ length s
    → 0 < n
    → IsSkipped s k n
    → IsWordFrom s n from
    → IsLast s k n from
IsLast-at s k zero from le pos h w = absurd (omega arith)
IsLast-at s k (suc i) zero le pos h w =
    let e : suc i - 0 ≡ suc i = omega arith in
    let size : length (take (suc i) s) ≡ suc i = length-take (suc i) s (omega (arith, h.below)) in
    record {
      order = omega arith;
      inside = h.below;
      size = rw e size;
      split =
          rw e (h.same ∙ words-alone (take (suc i) s) (rw e at w.no_blank) (omega (arith, size)));
    }
IsLast-at s k (suc i) (suc f) le pos h w =
    let e : f ≡ suc f - 1 = omega arith in
    let v = take (suc i - suc f) (drop (suc f) s) in
    let order : suc f < suc i = elim (Bool-cases (f == i)) [
      | inl same ↦
          let e : f ≡ i = ground arith in
          absurd (ground (arith, h.at_word i refl, w.behind_blank f refl, ap (char_at s) e))
      | inr other ↦ ground (arith, w.below)
    ] in
    let size : length v ≡ suc i - suc f =
      length-take (suc i - suc f) (drop (suc f) s)
        (omega (arith, h.below, length-drop (suc f) s)) in
    record {
      order = order;
      inside = h.below;
      size = size;
      split =
          h.same
          ∙ ap words (
              take_add (suc f) (suc i - suc f) (suc i) s (omega (arith, order))
              ∙ ap (λ t. t ++ v)
                  (take-suc f s (omega (arith, order, h.below))
                    ∙ ap (λ c. take f s ++ c ∷ []) (w.behind_blank f refl))
              ∙ append_assoc (take f s) (b' ' ∷ []) v)
          ∙ words-last (take f s) v w.no_blank (omega (arith, order, size))
          ∙ ap (λ j. words (take j s) ++ v ∷ []) e;
    }

pub round-IsLast :
    (s : List ℕ) (k : ℕ)
    → k ≤ length s
    → 0 < skip_blanks s k
    → IsLast s k (skip_blanks s k) (word_begin s (skip_blanks s k))
round-IsLast s k le pos =
    let h = skip_blanks-IsSkipped s k le in
    IsLast-at s k (skip_blanks s k) (word_begin s (skip_blanks s k)) le pos h
      (word_begin-IsWordFrom s (skip_blanks s k) (omega (arith, h.below)))
