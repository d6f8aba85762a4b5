-- ===== src/Clib/Strcmp.antt =====
-- `strcmp` of the C library, for texts without their NUL: the difference of the first two bytes that
-- differ. The standard fixes its sign only.
use good_command.Common.{
  ℕ, ◌<◌, ◌≡◌, ◌⊎◌, inl, inr, refl, false, true, List, [], ◌∷◌, ◌==◌, if◌then◌else◌, arith, ltb,
  Bool-cases,
}
use good_command.Common.Int.{ℤ, pos, ◌-ℤ◌, ltb_ℤ}
use good_command.Clib.Bytes.Text.{NoNul}

unfoldable pub strcmp : List ℕ → List ℕ → ℤ
unfolding ◌-ℤ◌
strcmp [] [] = pos 0
strcmp [] (d ∷ t) = pos 0 -ℤ pos d
strcmp (c ∷ s) [] = pos c
strcmp (c ∷ s) (d ∷ t) = let rest = strcmp s t in if c == d then rest else pos c -ℤ pos d

-- The order of a dictionary.
abbrev pub LexLe : List ℕ → List ℕ → Type 0
LexLe [] t = Unit {0}
LexLe (c ∷ s) [] = ⊥
LexLe (c ∷ s) (d ∷ t) = (c < d) ⊎ ((c ≡ d) × LexLe s t)

pub LexLe-total : (s t : List ℕ) → LexLe s t ⊎ LexLe t s
LexLe-total [] t = inl tt
LexLe-total (c ∷ s) [] = inr tt
LexLe-total (c ∷ s) (d ∷ t) = elim (Bool-cases (ltb c d)) [
  | inl less ↦ inl (inl (ground arith))
  | inr not_less ↦ elim (Bool-cases (ltb d c)) [
    | inl more ↦ inr (inl (ground arith))
    | inr same ↦ elim (LexLe-total s t) [
      | inl le ↦ inl (inr (ground arith, le))
      | inr ge ↦ inr (inr (ground arith, ge))
    ]
  ]
]

pub LexLe-trans : (s t u : List ℕ) → LexLe s t → LexLe t u → LexLe s u
LexLe-trans [] t u p q = tt
LexLe-trans (c ∷ s) [] u p q = absurd p
LexLe-trans (c ∷ s) (d ∷ t) [] p q = absurd q
LexLe-trans (c ∷ s) (d ∷ t) (e ∷ u) (inl p) (inl q) = inl (omega arith)
LexLe-trans (c ∷ s) (d ∷ t) (e ∷ u) (inl p) (inr (q, _)) = inl (omega arith)
LexLe-trans (c ∷ s) (d ∷ t) (e ∷ u) (inr (p, _)) (inl q) = inl (omega arith)
LexLe-trans (c ∷ s) (d ∷ t) (e ∷ u) (inr (p, le)) (inr (q, le')) =
    inr (omega arith, LexLe-trans s t u le le')

-- A text is not in front of another one just if `strcmp` is not negative.
pub strcmp-LexLe : (s t : List ℕ) → NoNul t → ltb_ℤ (strcmp s t) (pos 0) ≡ false → LexLe t s
unfolding strcmp ◌-ℤ◌
strcmp-LexLe s [] n h = tt
strcmp-LexLe [] (d ∷ t) n h = ground (arith, n.0, h)
strcmp-LexLe (c ∷ s) (d ∷ t) n h = elim (Bool-cases (c == d)) [
  | inl same ↦ inr (ground arith, strcmp-LexLe s t n.1 (rw same at h))
  | inr differ ↦ inl (ground (arith, h, differ))
]

pub LexLe-strcmp : (s t : List ℕ) → LexLe t s → ltb_ℤ (strcmp s t) (pos 0) ≡ false
unfolding strcmp ◌-ℤ◌
LexLe-strcmp [] [] le = refl
LexLe-strcmp (c ∷ s) [] le = ground arith
LexLe-strcmp [] (d ∷ t) le = absurd le
LexLe-strcmp (c ∷ s) (d ∷ t) (inl less) =
    let differ : (c == d) ≡ false = ground arith in rw differ (ground arith)
LexLe-strcmp (c ∷ s) (d ∷ t) (inr (same, le)) =
    let equal : (c == d) ≡ true = ground arith in rw equal (LexLe-strcmp s t le)
