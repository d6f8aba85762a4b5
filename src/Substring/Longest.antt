-- ===== src/Substring/Longest.antt =====
-- The result of 3-longest-substring-without-repeating-characters.c is the greatest length of a window.
use mathlib.Core.Path.{subst}
use good_command.Common.{
  ℕ, zero, suc, ◌+◌, ◌-◌, ◌≤◌, ◌<◌, ◌≡◌, ◌≢◌, refl, ap, ◌∙◌, ◌⊎◌, inl, inr, false, List, [], ◌∷◌,
  arith, leb, ltb, ◌==◌, Bool-cases, if◌then◌else◌, length, get_or, set, replicate, get_or-set_self,
  get_or-set_ne, length-set, length-replicate, Yields,
}
use good_command.Substring.{char_at, next_start, window_loop, length_of_longest_substring}
use good_command.Substring.Window.{NoRepeat, IsWindow, Fresh, IsWindow-Fresh, next_start-IsWindow}

get_or-replicate : (n i : ℕ) → get_or {A = ℕ} (replicate n 0) i 0 ≡ 0
get_or-replicate zero i = refl
get_or-replicate (suc n) zero = refl
get_or-replicate (suc n) (suc i) = get_or-replicate n i

-- A run of `n` of the first `end` bytes has no repetition, and no longer one is without.
pub record LongestBefore (s : List ℕ) (end n : ℕ) : Type 0 where
  pub from : ℕ
  pub inside : from + n ≤ end
  pub distinct : NoRepeat s from (from + n)
  pub longest : (a m : ℕ) → a + m ≤ end → NoRepeat s a (a + m) → m ≤ n

-- The first 128 entries of `map` say which bytes stand before `end`.
record Marks (s : List ℕ) (end : ℕ) (map : List ℕ) : Type 0 where
  room : length map ≡ 256
  bit : (c : ℕ) → (get_or map c 0 ≡ 0) ⊎ (get_or map c 0 ≡ 1)
  marked : (i : ℕ) → i < end → get_or map (char_at s i) 0 ≡ 1

abbrev pub IsAscii : List ℕ → Type 0
IsAscii [] = Unit {0}
IsAscii (c ∷ s) = (c < 128) × IsAscii s

char_at-IsAscii : (s : List ℕ) (i : ℕ) → IsAscii s → char_at s i < 128
char_at-IsAscii [] i h = omega arith
char_at-IsAscii (c ∷ s) zero h = h.0
char_at-IsAscii (c ∷ s) (suc i) h = char_at-IsAscii s i h.1

Marks-seen :
    (s : List ℕ) (end : ℕ) (map : List ℕ)
    → Marks s end map
    → get_or map (char_at s end) 0 ≡ 1
    → Marks s (end + 1) map
Marks-seen s end map m seen = record {
  room = m.room;
  bit = m.bit;
  marked = λ i lt. elim (Bool-cases (i == end)) [
    | inl here ↦ let e : i ≡ end = ground arith in rw e seen
    | inr other ↦ m.marked i (ground arith)
  ];
}

Marks-new :
    (s : List ℕ) (end : ℕ) (map : List ℕ)
    → Marks s end map
    → char_at s end < 128
    → Marks s (end + 1) (set map (char_at s end) 1)
Marks-new s end map m small =
    let c = char_at s end in
    let here = get_or-set_self map c 1 0 (omega (arith, m.room)) in
    record {
      room = length-set map c 1 ∙ m.room;
      bit = λ d. elim (Bool-cases (c == d)) [
        | inl same ↦ let e : d ≡ c = ground arith in inr (rw e here)
        | inr other ↦ rw (get_or-set_ne map c d 1 0 (ground arith)) (m.bit d)
      ];
      marked = λ i lt. elim (Bool-cases (c == char_at s i)) [
        | inl same ↦ let e : char_at s i ≡ c = ground arith in rw e here
        | inr other ↦
            let before : i ≢ end = λ e. ground (arith, ap (char_at s) e) in
            rw (get_or-set_ne map c (char_at s i) 1 0 (ground arith)) (m.marked i (omega arith))
      ];
    }

module _ (s : List ℕ) (start end n : ℕ) (b : LongestBefore s end n)
    (w : IsWindow s start (end + 1)) where
  bound : (a m : ℕ) → a + m ≤ end + 1 → NoRepeat s a (a + m) → (m ≤ n) ⊎ (m ≤ end + 1 - start)
  bound a m le d = elim (Bool-cases (leb (a + m) end)) [
    | inl inside ↦ inl (b.longest a m (ground arith) d)
    | inr last ↦
        let e : a + m ≡ end + 1 = ground arith in
        inr (omega (arith, w.leftmost a (omega arith) (subst (NoRepeat s a) e d)))
  ]

  LongestBefore-suc :
      LongestBefore s (end + 1) (if ltb (end + 1 - start) n then n else end + 1 - start)
  LongestBefore-suc = elim (Bool-cases (ltb (end + 1 - start) n)) [
    | inl shorter ↦ rw shorter record {
      from = b.from;
      inside = omega (arith, b.inside);
      distinct = b.distinct;
      longest = λ a m le d. ground (arith, bound a m le d);
    }
    | inr longer ↦ rw longer (
        let e : end + 1 ≡ start + (end + 1 - start) = omega (arith, w.order) in
        record {
          from = start;
          inside = omega (arith, w.order);
          distinct = subst (NoRepeat s start) e w.distinct;
          longest = λ a m le d. ground (arith, bound a m le d);
        })
  ]

window_loop-LongestBefore :
    (s : List ℕ) (left end start n : ℕ) (map : List ℕ)
    → IsAscii s
    → left + end ≡ length s
    → IsWindow s start end
    → Marks s end map
    → LongestBefore s end n
    → Yields (LongestBefore s (length s)) (window_loop s left end start n map)
unfolding window_loop
window_loop-LongestBefore s zero end start n map small e w m b =
    let e' : end ≡ length s = omega arith in subst (λ k. LongestBefore s k n) e' b
window_loop-LongestBefore s (suc left) end start n map small e w m b =
    let c = char_at s end in
    let in_map : leb 128 c ≡ false = ground (arith, char_at-IsAscii s end small) in
    rw in_map (elim (m.bit c) [
      | inl zero_bit ↦
          let fresh : Fresh s start end =
            λ i le lt same. ground (arith, m.marked i lt, ap (λ d. get_or map d 0) same) in
          let w' = IsWindow-Fresh s start end w fresh in
          rw zero_bit (
            window_loop-LongestBefore s left (end + 1) start _ (set map c 1) small (omega arith) w'
              (Marks-new s end map m (char_at-IsAscii s end small))
              (LongestBefore-suc s start end n b w'))
      | inr one_bit ↦
          let w' = next_start-IsWindow s start end w in
          rw one_bit (
            window_loop-LongestBefore s left (end + 1) (next_start s start end) _ map small
              (omega arith) w' (Marks-seen s end map m one_bit)
              (LongestBefore-suc s (next_start s start end) end n b w'))
    ])

-- On a text of bytes below 128 the function ends with the length of a longest run of the text in which
-- no byte occurs twice.
pub length_of_longest_substring-LongestBefore :
    (s : List ℕ) → IsAscii s → Yields (LongestBefore s (length s)) (length_of_longest_substring s)
unfolding length_of_longest_substring
length_of_longest_substring-LongestBefore s small =
    window_loop-LongestBefore s (length s) 0 0 0 (replicate 256 0) small (omega arith)
      record {
        order = omega arith;
        distinct = λ i j le lt below. absurd (omega arith);
        leftmost = λ a le d. omega arith;
      }
      record {
        room = length-replicate {A = ℕ} 256 0;
        bit = λ c. inl (get_or-replicate 256 c);
        marked = λ i lt. absurd (omega arith);
      }
      record {
        from = 0;
        inside = omega arith;
        distinct = λ i j le lt below. absurd (omega arith);
        longest = λ a m le d. omega arith;
      }
