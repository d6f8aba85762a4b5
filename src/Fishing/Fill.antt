-- ===== src/Fishing/Fill.antt =====
-- What the block holds when get_mem has filled it.
use good_command.Common.{
  ℕ, zero, suc, ◌+◌, ◌%◌, ◌≤◌, ◌<◌, ◌≡◌, refl, ◌∙◌, inl, inr, true, List, Option, none, some, arith,
  ltb, ◌==◌, Bool-cases, length, length-set, get_or, set, get_or-set_self, get_or-set_ne, Yields,
  Yields-bind, Yields-mono,
}
use good_command.Fishing.{fill_loop, get_mem}

-- The first `n` bytes are the letters from a to z, over and over, the others are those of `block`, and the
-- block keeps its size.
pub record Filled (block : List ℕ) (n : ℕ) (mem : List ℕ) : Type 0 where
  pub room : length mem ≡ length block
  pub letter : (j : ℕ) → j < n → get_or mem j 0 ≡ b'a' + j % 26
  pub rest : (j : ℕ) → n ≤ j → get_or mem j 0 ≡ get_or block j 0

fill_loop-Filled :
    (block : List ℕ) (rounds i a : ℕ) (mem : List ℕ)
    → i + rounds ≤ length block
    → a ≡ i % 26
    → Filled block i mem
    → Yields (Filled block (i + rounds)) (fill_loop rounds i a mem)
unfolding fill_loop
fill_loop-Filled block zero i a mem le e f = record {
  room = f.room;
  letter = λ j lt. f.letter j (omega arith);
  rest = λ j le'. f.rest j (omega arith);
}
fill_loop-Filled block (suc rounds) i a mem le e f =
    let inside : ltb i (length mem) ≡ true = ground (arith, f.room) in
    let v = (a + 97) % 256 in
    let next : Filled block (i + 1) (set mem i v) = record {
      room = length-set mem i v ∙ f.room;
      letter = λ j lt. elim (Bool-cases (i == j)) [
        | inl same ↦
            let e' : j ≡ i = ground arith in
            rw (e', get_or-set_self mem i v 0 (omega (arith, f.room))) (omega arith)
        | inr other ↦ rw (get_or-set_ne mem i j v 0 (ground arith)) (f.letter j (ground arith))
      ];
      rest = λ j le'. get_or-set_ne mem i j v 0 (omega arith) ∙ f.rest j (omega arith);
    } in
    rw inside (
      Yields-mono (Filled block (i + 1 + rounds)) (Filled block (i + suc rounds)) _
        (fill_loop-Filled block rounds (i + 1) ((a + 1) % 26) (set mem i v) (omega arith)
          (omega arith) next)
        (λ m g. record {
          room = g.room;
          letter = λ j lt. g.letter j (omega arith);
          rest = λ j le'. g.rest j (omega arith);
        }))

-- What is left of the block that kmalloc returned.
abbrev pub Left : ℕ → Option (List ℕ) → Option (List ℕ) → Type 0
Left size none none = Unit {0}
Left size (some mem) (some m) = Filled mem size m
Left size _ _ = ⊥

-- If kmalloc fails nothing is written. Into a block of the size asked for, or a larger one, get_mem writes
-- the letters from a to z, over and over, up to that size, and nothing behind it.
pub get_mem-Left :
    (size : ℕ) (kernel_mem : Option (List ℕ))
    → ((mem : List ℕ) → kernel_mem ≡ some mem → size ≤ length mem)
    → Yields (Left size kernel_mem) (get_mem size kernel_mem)
unfolding get_mem
get_mem-Left size none large = tt
get_mem-Left size (some mem) large =
    Yields-bind (Filled mem (0 + size)) (Left size (some mem)) (fill_loop size 0 0 mem) _
      (fill_loop-Filled mem size 0 0 mem (omega (arith, large mem refl)) (omega arith)
        record { room = refl; letter = λ j lt. absurd (omega arith); rest = λ j le. refl })
      (λ m g. record {
        room = g.room;
        letter = λ j lt. g.letter j (omega arith);
        rest = λ j le. g.rest j (omega arith);
      })
