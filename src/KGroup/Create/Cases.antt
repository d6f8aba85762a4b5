-- ===== src/KGroup/Create/Cases.antt =====
-- What the cases of `main` in 25-reverse-nodes-in-k-group.c print.
use good_command.Common.{
  ℕ, zero, suc, ◌+◌, ◌/◌, ◌<◌, ◌≡◌, ◌≢◌, refl, sym, ap, false, List, [], ◌∷◌, arith, length,
  length-append, length-reverse, take, drop, take-append-drop, reverse, value,
}
use good_command.Common.Int.{pos}
use good_command.KGroup.Heap.{Ptr, null, Heap, Ends, Ends-mono, Ends-after, load-value}
use good_command.KGroup.Chain.{Cells, occurs, first, Linked, SameOutside, Distinct, not_in_rest}
use good_command.KGroup.{reverse_k_group}
use good_command.KGroup.Loop.{groups, reverse_k_group-groups}
use good_command.KGroup.Create.{walk_a_list, create_list, run_case}
use good_command.KGroup.Create.Laws.{number, Fresh, create_list-number, visit_loop-cells}

length-number : (i : ℕ) (ps : List Ptr) → length (number i ps) ≡ length ps
length-number i [] = refl
length-number i (p ∷ ps) = ap suc (length-number (i + 1) ps)

walk_a_list-cells :
    (fuel : ℕ) (h : Heap) (p : Ptr) (cs : Cells)
    → p ≡ first cs null
    → Linked h cs null
    → length cs < fuel
    → walk_a_list fuel p h ≡ value (cs, h)
unfolding walk_a_list
walk_a_list-cells fuel h p cs e l lt = rw e (visit_loop-cells fuel h cs l lt)

length-groups : {A : Type 0} (n k : ℕ) (xs : List A) → length (groups n k xs) ≡ length xs
unfolding groups
length-groups zero k xs = refl
length-groups (suc n) k xs = omega (
  arith,
  length-append (reverse (take k xs)) (groups n k (drop k xs)),
  length-reverse (take k xs),
  length-groups n k (drop k xs),
  length-append (take k xs) (drop k xs),
  ap length (take-append-drop k xs),
)

reversed :
    (fuel k : ℕ) (h : Heap) (prefix_head : Ptr) (cs : Cells) (n : ℕ)
    → n ≡ length cs
    → Linked h cs null
    → Distinct cs
    → prefix_head ≢ null
    → occurs prefix_head cs ≡ false
    → length cs < fuel
    → Ends
        (λ q g.
          (q ≡ first (groups (n / suc k) (suc k) cs) null)
          × Linked g (groups (n / suc k) (suc k) cs) null)
        (reverse_k_group fuel prefix_head (first cs null) (suc k) h)
reversed fuel k h prefix_head cs n size l d ne out lt =
    let turned : Cells = groups (length cs / suc k) (suc k) cs in
    rw size (
      Ends-mono
        (λ p g.
          (p ≡ first turned null)
          × Linked g turned null
          × SameOutside ((prefix_head, pos 0) ∷ cs) h g)
        (λ p g. (p ≡ first turned null) × Linked g turned null)
        (reverse_k_group fuel prefix_head (first cs null) (suc k) h)
        (reverse_k_group-groups fuel k h prefix_head cs l d ne out lt)
        λ p g (at, linked, _). (at, linked))

-- Given distinct new addresses, one of them for the extra node of `reverseKGroup`, and more rounds than
-- nodes, a case of `main` for a positive `k` ends, and prints the nodes with the values from 0 on, and
-- then all but the first of them with each full group of `k` turned round.
pub run_case-groups :
    (fuel : ℕ) (new_head : Ptr) (ps : List Ptr) (prefix_head : Ptr) (k : ℕ) (h : Heap)
    → Fresh new_head ps
    → prefix_head ≢ null
    → occurs prefix_head ((new_head, pos 0) ∷ number 1 ps) ≡ false
    → length ps + 1 < fuel
    → Ends
        (λ r g.
          (r.0 ≡ (new_head, pos 0) ∷ number 1 ps)
          × (r.1 ≡ groups (length ps / suc k) (suc k) (number 1 ps)))
        (run_case fuel new_head ps prefix_head (suc k) h)
unfolding run_case
run_case-groups fuel new_head ps prefix_head k h fresh ne out lt =
    let cs : Cells = number 1 ps in
    let size : length cs ≡ length ps = length-number 1 ps in
    let turned : Cells = groups (length ps / suc k) (suc k) cs in
    Ends-after
      (λ p g.
        (p ≡ new_head)
        × Linked g ((new_head, pos 0) ∷ cs) null
        × SameOutside ((new_head, pos 0) ∷ cs) h g)
      (λ r g. (r.0 ≡ (new_head, pos 0) ∷ cs) × (r.1 ≡ turned)) (create_list fuel new_head ps h) _
      (create_list-number fuel new_head ps h fresh (omega arith))
      λ p g (at, linked, _).
        rw (walk_a_list-cells fuel g p ((new_head, pos 0) ∷ cs) at linked (omega (arith, size))) (
          rw at (
            rw (load-value linked.0) (
              Ends-after (λ q g'. (q ≡ first turned null) × Linked g' turned null)
                (λ r g. (r.0 ≡ (new_head, pos 0) ∷ cs) × (r.1 ≡ turned))
                (reverse_k_group fuel prefix_head (first cs null) (suc k) g) _
                (reversed fuel k g prefix_head cs (length ps) (sym size) linked.1 fresh.0.1 ne
                  (not_in_rest prefix_head (new_head, pos 0) cs out) (omega (arith, size)))
                λ q g' (at', linked').
                  rw
                    (walk_a_list-cells fuel g' q turned at' linked'
                      (omega (arith, size, length-groups (length ps / suc k) (suc k) cs)))
                    (refl, refl))))
