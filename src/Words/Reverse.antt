-- ===== src/Words/Reverse.antt =====
-- The result of 151-reverse-words-in-a-string.c is the words of the text, the last one first.
use mathlib.Core.Path.{subst}
use mathlib.Core.List.{reverse-append}
use good_command.Common.{
  ℕ, zero, suc, ◌+◌, ◌-◌, ◌≤◌, ◌<◌, ◌≡◌, refl, sym, ◌∙◌, ap, inl, inr, false, List, [], ◌∷◌, ◌++◌,
  append-nil, append_assoc, arith, ◌==◌, Bool-cases, length, length-append, take, drop, replicate,
  reverse, Yields,
}
use good_command.Words.{skip_blanks, word_begin, words_loop, reverse_words}
use good_command.Words.Split.{words, behind, join}
use good_command.Words.Scan.{round-IsLast, skip_blanks-IsSkipped}
use good_command.Clib.Bytes.Filled.{filled, store-filled, write_bytes-filled}

-- `r` holds the text `out`, closed by NUL within its `n` bytes.
pub record IsText (n : ℕ) (out r : List ℕ) : Type 0 where
  pub bytes : r ≡ out ++ replicate (n - length out) 0
  pub closed : length out < n

-- One more word behind the blank.
behind-last :
    (out w : List ℕ) (v ws : List (List ℕ))
    → ws ≡ v ++ w ∷ []
    → ((out ++ b' ' ∷ []) ++ w) ++ behind (reverse v) ≡ out ++ behind (reverse ws)
behind-last out w v ws e =
    append_assoc (out ++ b' ' ∷ []) w (behind (reverse v))
    ∙ append_assoc out (b' ' ∷ []) (w ++ behind (reverse v))
    ∙ ap (λ xs. out ++ behind xs) (sym (ap reverse e ∙ reverse-append v (w ∷ [])))

words_loop-behind :
    (s : List ℕ) (rounds k j : ℕ) (out : List ℕ)
    → j ≡ length out
    → 0 < j
    → k ≤ length s
    → k < rounds
    → j + (k + 1 - (1 - k)) ≤ length s
    → Yields
        (IsText (length s + 1) (out ++ behind (reverse (words (take k s)))))
        (words_loop s rounds k j (filled (length s + 1) out))
unfolding words_loop
words_loop-behind s zero k j out e pos le lt fits = absurd (omega arith)
words_loop-behind s (suc rounds) zero j out e pos le lt fits =
    rw (append-nil out) record { bytes = refl; closed = omega arith }
words_loop-behind s (suc rounds) (suc i) j out e pos le lt fits =
    elim (Bool-cases (skip_blanks s (suc i) == 0)) [
      | inl no_word ↦
          let h = skip_blanks-IsSkipped s (suc i) le in
          let e₀ : skip_blanks s (suc i) ≡ 0 = ground arith in
          let none : words (take (suc i) s) ≡ [] = h.same ∙ ap (λ n. words (take n s)) e₀ in
          rw (no_word, none, append-nil out) record { bytes = refl; closed = omega arith }
      | inr word ↦
          let n = skip_blanks s (suc i) in
          let from = word_begin s n in
          let w = take (n - from) (drop from s) in
          let l = round-IsLast s (suc i) le (ground arith) in
          let out₁ = out ++ b' ' ∷ [] in
          let size₁ : length out₁ ≡ j + 1 = omega (arith, length-append out (b' ' ∷ [])) in
          let more : (j == 0) ≡ false = ground arith in
          let room : length out₁ + length w ≤ length s + 1 =
            omega (arith, l.order, l.inside, l.size) in
          rw
            (
              word,
              more,
              store-filled (length s + 1) j out b' ' e (omega arith),
              write_bytes-filled (length s + 1) (j + 1) out₁ w (sym size₁) room,
            )
            (subst
              (λ t. Yields (IsText (length s + 1) t) (
                words_loop s rounds (from - 1) (j + 1 + (n - from))
                  (filled (length s + 1) (out₁ ++ w))))
              (behind-last out w (words (take (from - 1) s)) (words (take (suc i) s)) l.split)
              (words_loop-behind s rounds (from - 1) (j + 1 + (n - from)) (out₁ ++ w)
                (omega (arith, length-append out₁ w, l.size)) (omega arith)
                (omega (arith, l.order, l.inside)) (omega (arith, l.order, l.inside))
                (omega (arith, l.order, l.inside))))
    ]

join-last :
    (w : List ℕ) (v ws : List (List ℕ))
    → ws ≡ v ++ w ∷ []
    → w ++ behind (reverse v) ≡ join (reverse ws)
join-last w v ws e = ap join (sym (ap reverse e ∙ reverse-append v (w ∷ [])))

take-length : (s : List ℕ) → take (length s) s ≡ s
take-length [] = refl
take-length (c ∷ s) = ap (λ t. c ∷ t) (take-length s)

first-round :
    (s : List ℕ) (rounds i : ℕ)
    → suc i ≡ length s
    → i < rounds
    → Yields
        (IsText (length s + 1) (join (reverse (words s))))
        (words_loop s (suc rounds) (suc i) 0 (replicate (length s + 1) 0))
unfolding words_loop
first-round s rounds i e lt =
    let n = skip_blanks s (suc i) in
    let from = word_begin s n in
    let w = take (n - from) (drop from s) in
    let N : ℕ = length s + 1 in
    let same : words (take (suc i) s) ≡ words s =
      ap (λ k. words (take k s)) e ∙ ap words (take-length s) in
    let whole : N - 0 ≡ N = omega arith in
    elim (Bool-cases (n == 0)) [
      | inl no_word ↦
          let h = skip_blanks-IsSkipped s (suc i) (omega arith) in
          let e₀ : n ≡ 0 = ground arith in
          let none : [] ≡ words s = sym (ap (λ k. words (take k s)) e₀) ∙ sym h.same ∙ same in
          rw no_word (
            subst (λ ws. IsText N (join (reverse ws)) (replicate N 0)) none
              record { bytes = rw whole refl; closed = omega arith })
      | inr word ↦
          let l = round-IsLast s (suc i) (omega arith) (ground arith) in
          let start : replicate N 0 ≡ filled N [] = rw whole refl in
          rw
            (
              word,
              start,
              write_bytes-filled N 0 [] w refl (omega (arith, l.order, l.inside, l.size)),
            )
            (subst
              (λ t.
                Yields (IsText N t) (words_loop s rounds (from - 1) (0 + (n - from)) (filled N w)))
              (join-last w (words (take (from - 1) s)) (words s) (sym same ∙ l.split))
              (words_loop-behind s rounds (from - 1) (0 + (n - from)) w (omega (arith, l.size))
                (omega (arith, l.order)) (omega (arith, l.order, l.inside))
                (omega (arith, l.order, l.inside)) (omega (arith, l.order, l.inside))))
    ]

-- `reverseWords` ends, within its buffer of one byte more than the text, and the buffer holds the words
-- of the text, the last one first, with one blank between them, and zeros behind.
pub reverse_words-join :
    (s : List ℕ) → Yields (IsText (length s + 1) (join (reverse (words s)))) (reverse_words s)
unfolding reverse_words
reverse_words-join [] = record { bytes = refl; closed = omega arith }
reverse_words-join (c ∷ t) =
    let some_text : (length (c ∷ t) == 0) ≡ false = ground arith in
    let rounds : length (c ∷ t) + 1 ≡ suc (length (c ∷ t)) = omega arith in
    rw
      (
        some_text,
        ap (λ k. words_loop (c ∷ t) k (length (c ∷ t)) 0 (replicate (length (c ∷ t) + 1) 0)) rounds,
      )
      (first-round (c ∷ t) (length (c ∷ t)) (length t) refl (omega arith))
