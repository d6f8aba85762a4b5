-- ===== src/KGroup/Groups.antt =====
-- The groups of 25-reverse-nodes-in-k-group.c.
use good_command.Common.{ℕ, ◌<◌, ◌≡◌, false, [], ◌∷◌, ◌++◌, arith, length, reverse}
use good_command.Common.Int.{ℤ}
use good_command.KGroup.Heap.{Ptr, null, Heap, Ends, Ends-mono}
use good_command.KGroup.Chain.{
  Cells, occurs, first, Linked, SameOutside, first-append, Linked-append, Linked-split,
  Linked-frame, Linked-not_null, not_in-left,
}
use good_command.KGroup.Count.{
  Once, Once-Distinct, Once-apart, Once-apart_right, Once-left, Once-right,
}
use good_command.KGroup.Revert.{Reverted, do_revert-Reverted}
use good_command.KGroup.{do_revert}

module _ (h : Heap) where
  stop-outside :
      (xs rest : Cells)
      → Once (xs ++ rest)
      → Linked h (xs ++ rest) null
      → occurs (first rest null) xs ≡ false
  stop-outside xs [] once l = Linked-not_null h xs null (Linked-split h xs [] null l).0
  stop-outside xs (c ∷ rest) once l = Once-apart_right xs (c ∷ rest) c.0 once (ground arith)

  -- A chain whose part `x ∷ ys` is reversed in place.
  pub do_revert-within :
      (fuel : ℕ) (ps : Cells) (a x : Ptr × ℤ) (ys rest : Cells)
      → Linked h (ps ++ a ∷ (x ∷ ys ++ rest)) null
      → Once (ps ++ a ∷ (x ∷ ys ++ rest))
      → length ys < fuel
      → Ends
          (λ _ g.
            Linked g (ps ++ a ∷ (reverse (x ∷ ys) ++ rest)) null × SameOutside (a ∷ x ∷ ys) h g)
          (do_revert fuel a.0 (first rest null) h)
  do_revert-within fuel ps a x ys rest l once lt =
      let behind = a ∷ x ∷ ys in
      let (before, tail) = Linked-split h ps (behind ++ rest) null l in
      let (lc, lr) = Linked-split h (x ∷ ys) rest null tail.1 in
      let once_tail = Once-right ps (behind ++ rest) once in
      Ends-mono (λ _ g. Reverted h g a (x ∷ ys) (first rest null))
        (λ _ g. Linked g (ps ++ a ∷ (reverse (x ∷ ys) ++ rest)) null × SameOutside (a ∷ x ∷ ys) h g)
        _
        (do_revert-Reverted fuel ys (first rest null) tail.0 lc
          (Once-Distinct behind (Once-left behind rest once_tail))
          (stop-outside ys rest (Once-right (a ∷ x ∷ []) (ys ++ rest) once_tail) tail.1.1) lt)
        (λ _ g r. (
          Linked-append g ps (a ∷ (reverse (x ∷ ys) ++ rest)) null
              (Linked-frame h {g = g} ps behind a.0 r.same
                (λ b i. not_in-left b behind rest (Once-apart ps (behind ++ rest) b once i)) before)
              (
                rw first-append r.at_head,
                Linked-append g (reverse (x ∷ ys)) rest null r.linked (
                    Linked-frame h {g = g} rest behind null r.same
                      (λ b i. Once-apart_right behind rest b once_tail i) lr),
              ),
          r.same,
        ))
