-- ===== src/KGroup/Walk.antt =====
-- The loops of 25-reverse-nodes-in-k-group.c that only walk along a list.
use good_command.Common.{
  ℕ, zero, suc, ◌+◌, ◌<◌, ◌≡◌, refl, ◌∙◌, ap, [], ◌∷◌, ◌++◌, arith, length, value,
}
use good_command.Common.Int.{ℤ}
use good_command.KGroup.Heap.{Ptr, null, Heap, not_null, load-value}
use good_command.KGroup.Chain.{Cells, first, Linked}
use good_command.KGroup.{size_loop, get_size, get_node_by_index}

module _ (h : Heap) where
  size_loop-length :
      (fuel s : ℕ) (cs : Cells)
      → Linked h cs null
      → length cs < fuel
      → size_loop fuel s (first cs null) h ≡ value (s + length cs, h)
  unfolding size_loop
  size_loop-length zero s cs l lt = absurd (omega arith)
  size_loop-length (suc fuel) s [] l lt = ap (λ n. value (n, h)) (omega arith)
  size_loop-length (suc fuel) s (c ∷ cs) l lt =
      rw (not_null l.0, load-value l.0)
        (size_loop-length fuel (s + 1) cs l.1 (omega arith) ∙ ap (λ n. value (n, h)) (omega arith))

  -- The number of nodes of a list, given more rounds than that.
  pub get_size-length :
      (fuel : ℕ) (cs : Cells)
      → Linked h cs null
      → length cs < fuel
      → get_size fuel (first cs null) h ≡ value (length cs, h)
  unfolding get_size
  get_size-length fuel cs l lt =
      size_loop-length fuel 0 cs l lt ∙ ap (λ n. value (n, h)) (omega arith)

  -- The address of the node behind `cs`.
  pub get_node_by_index-append :
      (cs : Cells) (c : Ptr × ℤ) (rest : Cells)
      → Linked h (cs ++ c ∷ rest) null
      → get_node_by_index (length cs) (first (cs ++ c ∷ rest) null) h ≡ value (c.0, h)
  unfolding get_node_by_index
  get_node_by_index-append [] c rest l = refl
  get_node_by_index-append (b ∷ cs) c rest l =
      rw (load-value l.0) (get_node_by_index-append cs c rest l.1)
