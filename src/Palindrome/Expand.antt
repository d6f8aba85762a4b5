-- ===== src/Palindrome/Expand.antt =====
-- Growing a palindrome round a centre.
use mathlib.Core.Path.{subst}
use native.Mathlib.Nat.{le_trans}
use good_command.Common.{
  ℕ, zero, suc, ◌+◌, ◌-◌, ◌≤◌, ◌<◌, ◌≡◌, ◌&&◌, inl, inr, List, arith, ltb, leb, ◌==◌, Bool-cases,
  if◌then◌else◌, length, Yields, Yields-mono, ap, sym,
}
use good_command.Palindrome.{char_at, Best, odd_loop, even_loop}

-- The bytes at `i - j` and at `right j` are the same, for every `j` below `m`.
abbrev pub Mirror : List ℕ → ℕ → (ℕ → ℕ) → ℕ → Type 0
Mirror s i right m =
    (j : ℕ) → j < m → (j ≤ i) × (right j < length s) × (char_at s (i - j) ≡ char_at s (right j))

abbrev pub odd_right : ℕ → ℕ → ℕ
odd_right i j = i + j + 1

abbrev pub even_right : ℕ → ℕ → ℕ
even_right i j = i + j

-- `best` is a palindrome, as wide as `old` and as any one round the centre `i`.
pub record Grown (s : List ℕ) (right : ℕ → ℕ → ℕ) (i : ℕ) (old best : Best) : Type 0 where
  pub mirrors : Mirror s best.1 (right best.1) best.0
  pub wider : old.0 ≤ best.0
  pub widest : (m : ℕ) → Mirror s i (right i) m → m ≤ best.0

Mirror-suc :
    (s : List ℕ) (i : ℕ) (right : ℕ → ℕ) (m : ℕ)
    → Mirror s i right m
    → m ≤ i
    → right m < length s
    → char_at s (i - m) ≡ char_at s (right m)
    → Mirror s i right (m + 1)
Mirror-suc s i right m h le lt e j below = elim (Bool-cases (j == m)) [
  | inl same ↦ let e' : j ≡ m = ground arith in rw e' (le, lt, e)
  | inr other ↦ h j (ground arith)
]

-- Past a mismatch no palindrome goes.
Mirror-le :
    (s : List ℕ) (i : ℕ) (right : ℕ → ℕ) (m n : ℕ)
    → ¬ ((m ≤ i) × (right m < length s) × (char_at s (i - m) ≡ char_at s (right m)))
    → Mirror s i right n
    → n ≤ m
Mirror-le s i right m n stop h = elim (Bool-cases (leb n m)) [
  | inl le ↦ ground arith
  | inr gt ↦ absurd (stop (h m (ground arith)))
]

-- What the update of the best keeps.
module _ (s : List ℕ) (right : ℕ → ℕ → ℕ) (i step : ℕ) (best : Best) where
  abbrev next_best : Best
  next_best = if leb best.0 (step + 1) then (step + 1, i) else best

  record Picked : Type 0 where
    mirrors : Mirror s next_best.1 (right next_best.1) next_best.0
    covers : step + 1 ≤ next_best.0
    wider : best.0 ≤ next_best.0

  picked : Mirror s i (right i) (step + 1) → Mirror s best.1 (right best.1) best.0 → Picked
  picked new old = elim (Bool-cases (leb best.0 (step + 1))) [
    | inl better ↦ record {
      mirrors =
          subst (λ (b : Best). Mirror s b.1 (right b.1) b.0)
            (ap (λ c. if c then (step + 1, i) else best) (sym better)) new;
      covers = rw better (omega arith);
      wider = rw better (ground arith);
    }
    | inr worse ↦ record {
      mirrors =
          subst (λ (b : Best). Mirror s b.1 (right b.1) b.0)
            (ap (λ c. if c then (step + 1, i) else best) (sym worse)) old;
      covers = rw worse (ground arith);
      wider = rw worse (omega arith);
    }
  ]

  Grown-next : (b : Best) → Picked → Grown s right i next_best b → Grown s right i best b
  Grown-next b p g = record {
    mirrors = g.mirrors;
    wider = le_trans p.wider g.wider;
    widest = g.widest;
  }

module _ (s : List ℕ) (i : ℕ) where
  pub odd_loop-Grown :
      (rounds step : ℕ) (best : Best)
      → Mirror s i (odd_right i) step
      → Mirror s best.1 (odd_right best.1) best.0
      → step ≤ best.0
      → i + 1 < rounds + step
      → Yields (Grown s odd_right i best) (odd_loop s i rounds step best)
  unfolding odd_loop
  odd_loop-Grown zero step best here m le enough =
      let last = here (step - 1) (omega arith) in absurd (omega (arith, last.0))
  odd_loop-Grown (suc rounds) step best here m le enough =
      elim (Bool-cases (leb step i && ltb (i + step + 1) (length s))) [
        | inr out ↦ rw out record {
          mirrors = m;
          wider = omega arith;
          widest = λ n h.
              omega (arith, Mirror-le s i (odd_right i) step n (λ (a, b, c). ground arith) h);
        }
        | inl room ↦ rw room (elim (Bool-cases (char_at s (i - step) == char_at s (i + step + 1))) [
          | inr differ ↦ rw differ record {
            mirrors = m;
            wider = omega arith;
            widest = λ n h.
                omega (arith, Mirror-le s i (odd_right i) step n (λ (a, b, c). ground arith) h);
          }
          | inl same ↦ rw same (
              let new =
                Mirror-suc s i (odd_right i) step here (ground arith) (ground arith)
                  (ground arith) in
              let p = picked s odd_right i step best new m in
              Yields-mono _ _ _
                (odd_loop-Grown rounds (step + 1) (next_best s odd_right i step best) new p.mirrors
                  p.covers (omega arith))
                (λ b. Grown-next s odd_right i step best b p))
        ])
      ]

  pub even_loop-Grown :
      (rounds step : ℕ) (best : Best)
      → Mirror s i (even_right i) step
      → Mirror s best.1 (even_right best.1) best.0
      → step ≤ best.0
      → i + 1 < rounds + step
      → Yields (Grown s even_right i best) (even_loop s i rounds step best)
  unfolding even_loop
  even_loop-Grown zero step best here m le enough =
      let last = here (step - 1) (omega arith) in absurd (omega (arith, last.0))
  even_loop-Grown (suc rounds) step best here m le enough =
      elim (Bool-cases (leb step i && ltb (i + step) (length s))) [
        | inr out ↦ rw out record {
          mirrors = m;
          wider = omega arith;
          widest = λ n h.
              omega (arith, Mirror-le s i (even_right i) step n (λ (a, b, c). ground arith) h);
        }
        | inl room ↦ rw room (elim (Bool-cases (char_at s (i - step) == char_at s (i + step))) [
          | inr differ ↦ rw differ record {
            mirrors = m;
            wider = omega arith;
            widest = λ n h.
                omega (arith, Mirror-le s i (even_right i) step n (λ (a, b, c). ground arith) h);
          }
          | inl same ↦ rw same (
              let new =
                Mirror-suc s i (even_right i) step here (ground arith) (ground arith)
                  (ground arith) in
              let p = picked s even_right i step best new m in
              Yields-mono _ _ _
                (even_loop-Grown rounds (step + 1) (next_best s even_right i step best) new
                  p.mirrors p.covers (omega arith))
                (λ b. Grown-next s even_right i step best b p))
        ])
      ]
