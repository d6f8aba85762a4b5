-- ===== src/Words/Split.antt =====
-- The words of a text, from left to right, and what the end of the text adds to them.
use mathlib.Core.List.{nil≢cons}
use good_command.Common.{
  ℕ, ◌≡◌, refl, sym, ◌∙◌, ap, inl, inr, true, false, List, [], ◌∷◌, ◌++◌, ◌==◌, Bool-cases,
  if◌then◌else◌,
}

-- The words of `c ∷ s`, when those of `s` are `ws` and `c` is no blank.
abbrev pub extend : ℕ → List ℕ → List (List ℕ) → List (List ℕ)
extend c [] ws = (c ∷ []) ∷ ws
extend c (d ∷ s) [] = (c ∷ []) ∷ []
extend c (d ∷ s) (w ∷ ws) = if d == b' ' then (c ∷ []) ∷ w ∷ ws else (c ∷ w) ∷ ws

abbrev pub words : List ℕ → List (List ℕ)
words [] = []
words (c ∷ s) = if c == b' ' then words s else extend c s (words s)

abbrev pub NoBlank : List ℕ → Type 0
NoBlank [] = Unit {0}
NoBlank (c ∷ w) = ((c == b' ') ≡ false) × NoBlank w

-- The words with one blank between them.
abbrev pub behind : List (List ℕ) → List ℕ
behind [] = []
behind (w ∷ ws) = b' ' ∷ (w ++ behind ws)

abbrev pub join : List (List ℕ) → List ℕ
join [] = []
join (w ∷ ws) = w ++ behind ws

record IsCons (ws : List (List ℕ)) : Type 0 where
  head : List ℕ
  tail : List (List ℕ)
  parts : ws ≡ head ∷ tail

extend-IsCons : (c : ℕ) (s : List ℕ) (ws : List (List ℕ)) → IsCons (extend c s ws)
extend-IsCons c [] ws = record { head = c ∷ []; tail = ws; parts = refl }
extend-IsCons c (d ∷ s) [] = record { head = c ∷ []; tail = []; parts = refl }
extend-IsCons c (d ∷ s) (w ∷ ws) = elim (Bool-cases (d == b' ')) [
  | inl blank ↦ rw blank record { head = c ∷ []; tail = w ∷ ws; parts = refl }
  | inr word ↦ rw word record { head = c ∷ w; tail = ws; parts = refl }
]

words-IsCons : (c : ℕ) (s : List ℕ) → (c == b' ') ≡ false → IsCons (words (c ∷ s))
words-IsCons c s h = rw h (extend-IsCons c s (words s))

pub words-blank_end : (s : List ℕ) → words (s ++ b' ' ∷ []) ≡ words s
words-blank_end [] = refl
words-blank_end (c ∷ []) = refl
words-blank_end (c ∷ d ∷ s) = rw (words-blank_end (d ∷ s)) refl

pub words-one : (c : ℕ) (w : List ℕ) → NoBlank (c ∷ w) → words (c ∷ w) ≡ (c ∷ w) ∷ []
words-one c [] h = rw h.0 refl
words-one c (d ∷ w) h = rw (h.0, words-one d w h.1, h.1.0) refl

extend-append :
    (b d : ℕ) (s t : List ℕ) (ws : List (List ℕ)) (x : List ℕ)
    → (ws ≡ [] → (d == b' ') ≡ true)
    → extend b (d ∷ s) (ws ++ x ∷ []) ≡ extend b (d ∷ t) ws ++ x ∷ []
extend-append b d s t [] x h = rw (h refl) refl
extend-append b d s t (w ∷ ws) x h = elim (Bool-cases (d == b' ')) [
  | inl blank ↦ rw blank refl
  | inr word ↦ rw word refl
]

words-nil_blank : (d : ℕ) (s : List ℕ) → words (d ∷ s) ≡ [] → (d == b' ') ≡ true
words-nil_blank d s e = elim (Bool-cases (d == b' ')) [
  | inl blank ↦ blank
  | inr word ↦ let p = words-IsCons d s word in absurd (nil≢cons (sym e ∙ p.parts))
]

pub words-word_end :
    (s : List ℕ) (c : ℕ) (w : List ℕ)
    → NoBlank (c ∷ w)
    → words (s ++ b' ' ∷ c ∷ w) ≡ words s ++ (c ∷ w) ∷ []
words-word_end [] c w h = words-one c w h
words-word_end (b ∷ []) c w h = elim (Bool-cases (b == b' ')) [
  | inl blank ↦ rw blank (words-one c w h)
  | inr word ↦ rw (word, words-one c w h) refl
]
words-word_end (b ∷ d ∷ s) c w h = elim (Bool-cases (b == b' ')) [
  | inl blank ↦ rw blank (words-word_end (d ∷ s) c w h)
  | inr word ↦ rw word (
      ap (extend b (d ∷ (s ++ b' ' ∷ c ∷ w))) (words-word_end (d ∷ s) c w h)
      ∙ extend-append b d (s ++ b' ' ∷ c ∷ w) s (words (d ∷ s)) (c ∷ w) (words-nil_blank d s))
]
