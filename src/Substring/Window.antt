-- ===== src/Substring/Window.antt =====
-- Where the window starts: as far to the left as no byte in it occurs twice.
use good_command.Common.{
  ℕ, zero, suc, ◌+◌, ◌-◌, ◌≤◌, ◌<◌, ◌≡◌, ◌≢◌, sym, ap, ◌∙◌, inl, inr, List, arith, leb, ◌==◌,
  Bool-cases,
}
use good_command.Substring.{char_at, find_loop, next_start}

-- No byte occurs twice from `a` on, up to `b`.
abbrev pub NoRepeat : List ℕ → ℕ → ℕ → Type 0
NoRepeat s a b = (i j : ℕ) → a ≤ i → i < j → j < b → char_at s i ≢ char_at s j

-- The window is without repetition, and none that starts earlier is.
pub record IsWindow (s : List ℕ) (start end : ℕ) : Type 0 where
  pub order : start ≤ end
  pub distinct : NoRepeat s start end
  pub leftmost : (a : ℕ) → a ≤ end → NoRepeat s a end → start ≤ a

-- The byte at `end` is not among those from `a` on.
abbrev pub Fresh : List ℕ → ℕ → ℕ → Type 0
Fresh s a end = (i : ℕ) → a ≤ i → i < end → char_at s i ≢ char_at s end

NoRepeat-suc : (s : List ℕ) (a end : ℕ) → NoRepeat s a end → Fresh s a end → NoRepeat s a (end + 1)
NoRepeat-suc s a end d f i j le lt below e = elim (Bool-cases (j == end)) [
  | inl same ↦ let e' : j ≡ end = ground arith in f i le (ground arith) (rw e' at e)
  | inr other ↦ d i j le lt (ground arith) e
]

NoRepeat-pred : (s : List ℕ) (a end : ℕ) → NoRepeat s a (end + 1) → NoRepeat s a end
NoRepeat-pred s a end d i j le lt below = d i j le lt (omega arith)

pub IsWindow-Fresh :
    (s : List ℕ) (start end : ℕ)
    → IsWindow s start end
    → Fresh s start end
    → IsWindow s start (end + 1)
IsWindow-Fresh s start end w f = record {
  order = omega (arith, w.order);
  distinct = NoRepeat-suc s start end w.distinct f;
  leftmost = λ a le d. elim (Bool-cases (leb a end)) [
    | inl inside ↦ w.leftmost a (ground arith) (NoRepeat-pred s a end d)
    | inr behind ↦ ground (arith, w.order)
  ];
}

-- What the search finds: the first byte that is the one at `end`, or `end`.
record IsFirst (s : List ℕ) (from end i : ℕ) : Type 0 where
  above : from ≤ i
  below : i ≤ end
  same : char_at s i ≡ char_at s end
  before : (j : ℕ) → from ≤ j → j < i → char_at s j ≢ char_at s end

find_loop-IsFirst :
    (s : List ℕ) (end rounds i : ℕ) → rounds + i ≡ end → IsFirst s i end (find_loop s end rounds i)
unfolding find_loop
find_loop-IsFirst s end zero i e = record {
  above = omega arith;
  below = omega arith;
  same = let e' : i ≡ end = omega arith in ap (char_at s) e';
  before = λ j le lt. absurd (omega arith);
}
find_loop-IsFirst s end (suc rounds) i e = elim (Bool-cases (char_at s i == char_at s end)) [
  | inl found ↦ rw found record {
    above = omega arith;
    below = omega arith;
    same = ground arith;
    before = λ j le lt. absurd (omega arith);
  }
  | inr differ ↦ rw differ (
      let f = find_loop-IsFirst s end rounds (i + 1) (omega arith) in
      record {
        above = omega (arith, f.above);
        below = f.below;
        same = f.same;
        before = λ j le lt. elim (Bool-cases (j == i)) [
          | inl here ↦ let e' : j ≡ i = ground arith in rw e' (ground arith)
          | inr later ↦ f.before j (ground arith) lt
        ];
      })
]

pub next_start-IsWindow :
    (s : List ℕ) (start end : ℕ)
    → IsWindow s start end
    → IsWindow s (next_start s start end) (end + 1)
unfolding next_start
next_start-IsWindow s start end w =
    let i = find_loop s end (end - start) start in
    let f = find_loop-IsFirst s end (end - start) start (omega (arith, w.order)) in
    elim (Bool-cases (i == end)) [
      | inl none ↦
          let e : i ≡ end = ground arith in
          rw none (IsWindow-Fresh s start end w (λ j le lt. f.before j le (omega arith)))
      | inr found ↦ rw found record {
        order = omega (arith, f.below);
        distinct =
            NoRepeat-suc s (i + 1) end
              (λ j k le lt below. w.distinct j k (omega (arith, f.above)) lt below)
              (λ j le lt e. w.distinct i j f.above (omega arith) lt (f.same ∙ sym e));
        leftmost = λ a le d. elim (Bool-cases (leb a i)) [
          | inl inside ↦
              absurd (d i end (ground arith) (ground (arith, f.below)) (omega arith) f.same)
          | inr behind ↦ ground arith
        ];
      }
    ]
