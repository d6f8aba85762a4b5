-- ===== src/MemLimit/Laws.antt =====
-- How much mem-limit.c takes from a system with a limit.
use good_command.Common.{
  ℕ, zero, suc, ◌+◌, ◌-◌, inl, inr, Bool-cases, ◌≡◌, refl, ◌∙◌, ap, Bool, true, false, List, [],
  ◌∷◌, ◌++◌, arith, ltb, if◌then◌else◌,
}
use good_command.MemLimit
use good_command.MemLimit.{
  Line, starting, malloc_failed, allocated, done, Fate, returns, sleeps, killed, End, consume,
}

-- `n` lines of blocks, the first with the number `i`.
abbrev pub blocks : ℕ → ℕ → List Line
blocks i zero = []
blocks i (suc n) = allocated i (i + 1) ∷ blocks (i + 1) n

-- The lines and the end for the blocks from `i` on, when `most` are asked for and there is memory for
-- `free`: each that there is has its line. If there are too few, a system that grants memory that it does
-- not have kills the process, and another one refuses the next block.
unfoldable pub expected : (overcommits : Bool) → (most free i : ℕ) → List Line × Fate
expected overcommits most free i =
    if ltb free most
    then (if overcommits
        then (blocks i free, killed)
        else (blocks i free ++ malloc_failed (i + free) ∷ [], returns))
    else (blocks i most ++ done ∷ [], sleeps)

module _ {World : Type 0} (malloc touch : World → Bool × World) (free : World → ℕ)
    (overcommits : Bool) where
  -- With memory for a block it is granted, and gone when it is touched. Without, the system grants it all
  -- the same, and kills the process that touches it, or does not grant it.
  pub record IsLimited : Type 0 where
    pub grants : (w : World) (n : ℕ) → free w ≡ suc n → (malloc w).0 ≡ true
    pub keeps : (w : World) (n : ℕ) → free w ≡ suc n → (touch (malloc w).1).0 ≡ true
    pub takes : (w : World) (n : ℕ) → free w ≡ suc n → free (touch (malloc w).1).1 ≡ n
    pub short : (w : World) → free w ≡ 0 → (malloc w).0 ≡ overcommits
    pub stays :
        (w : World) → free w ≡ 0 → (free (malloc w).1 ≡ 0) × (free (touch (malloc w).1).1 ≡ 0)
    pub kills : (w : World) → free w ≡ 0 → (malloc w).0 ≡ true → (touch (malloc w).1).0 ≡ false

  Takes : (most n i : ℕ) → End World → Type 0
  Takes most n i e =
      ((e.printed, e.fate) ≡ expected overcommits most n i) × (free e.system ≡ n - most)

  expected-suc :
      (most n i : ℕ)
      → (
        allocated i (i + 1) ∷ (expected overcommits most n (i + 1)).0,
        (expected overcommits most n (i + 1)).1,
      )
        ≡ expected overcommits (suc most) (suc n) i
  unfolding expected
  expected-suc most n i =
      let same : i + 1 + n ≡ i + suc n = omega arith in
      let test : ltb (suc n) (suc most) ≡ ltb n most = ground arith in
      rw test (elim (Bool-cases (ltb n most)) [
        | inl few ↦ rw few (elim (Bool-cases overcommits) [
          | inl over ↦ rw over refl
          | inr strict ↦ rw (strict, same) refl
        ])
        | inr many ↦ rw many refl
      ])

  module _ (limited : IsLimited) where
    consume-Takes :
        (most n i : ℕ) (w : World) → free w ≡ n → Takes most n i (consume malloc touch most i w)
    unfolding Takes consume expected
    consume-Takes zero n i w h =
        let none_left : ltb n 0 ≡ false = ground arith in rw none_left (refl, rw h (omega arith))
    consume-Takes (suc most) zero i w h =
        let same : i + 0 ≡ i = omega arith in
        let fewer : ltb 0 (suc most) ≡ true = ground arith in
        elim (Bool-cases overcommits) [
          | inl over ↦
              let granted : (malloc w).0 ≡ true = limited.short w h ∙ over in
              let touched = limited.kills w h granted in
              rw (granted, touched, over, fewer) (refl, (limited.stays w h).1 ∙ omega arith)
          | inr strict ↦
              let refused : (malloc w).0 ≡ false = limited.short w h ∙ strict in
              rw (refused, strict, same, fewer) (refl, (limited.stays w h).0 ∙ omega arith)
        ]
    consume-Takes (suc most) (suc n) i w h =
        let next = (touch (malloc w).1).1 in
        let (ends, system) = consume-Takes most n (i + 1) next (limited.takes w n h) in
        rw (limited.grants w n h, limited.keeps w n h)
          (
            ap (λ (e : List Line × Fate). (allocated i (i + 1) ∷ e.0, e.1)) ends
                ∙ expected-suc most n i,
            system ∙ omega arith,
          )

-- On a system that has memory for `free` blocks, and grants and takes one at a time: main prints a line
-- for each block that it touches, which are 50 or all there are, and takes these blocks from the system.
-- With 50 it sleeps without end. With fewer, if the system refuses a block that it has no memory for, main
-- names this block and returns; if the system grants memory that it does not have, the process is killed
-- with no further line.
pub main-expected :
    {World : Type 0} (malloc touch : World → Bool × World) (free : World → ℕ) (overcommits : Bool)
    (w : World)
    → IsLimited malloc touch free overcommits
    → ((MemLimit.main malloc touch w).printed ≡ starting ∷ (expected overcommits 50 (free w) 0).0)
      × ((MemLimit.main malloc touch w).fate ≡ (expected overcommits 50 (free w) 0).1)
      × (free (MemLimit.main malloc touch w).system ≡ free w - 50)
unfolding MemLimit.main Takes
main-expected malloc touch free overcommits w limited =
    let (ends, system) = consume-Takes malloc touch free overcommits limited 50 (free w) 0 w refl in
    (
      ap (λ (e : List Line × Fate). starting ∷ e.0) ends,
      ap (λ (e : List Line × Fate). e.1) ends,
      system,
    )
