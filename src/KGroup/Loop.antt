-- ===== src/KGroup/Loop.antt =====
-- The loop of `reverseKGroup` over the groups, and the whole function.
use mathlib.Core.Path.{subst}
use good_command.Common.{
  ℕ, zero, suc, ◌+◌, ◌*◌, ◌/◌, ◌≤◌, ◌<◌, ◌≡◌, ◌≢◌, refl, ◌∙◌, sym, ap, false, List, [], ◌∷◌, ◌++◌,
  arith, ◌==◌, length, trap, reverse, take, drop, append_assoc, length-append, length-take,
  length-drop, take-append-drop, length-reverse,
}
use good_command.Common.Int.{ℤ, pos}
use good_command.KGroup.Heap.{
  Ptr, null, node, Heap, write, Ends, Ends-mono, Ends-after, after, after_assoc, write_self,
  write_other, load-value,
}
use good_command.KGroup.Chain.{
  Cells, occurs, first, Linked, SameOutside, Distinct, Linked-write, ne_of_not_in,
}
use good_command.KGroup.Count.{
  count, Once, count-append, count-reverse, occurs-count, count-not_in, Distinct-Once,
}
use good_command.KGroup.Walk.{get_size-length}
use good_command.KGroup.{group_loop, reverse_k_group}
use good_command.KGroup.Round.{group_body, group_body-reverse}

-- The first `n` groups of `k` elements turned round one by one, and the rest as it is.
unfoldable pub groups {ℓ} : {A : Type ℓ} → ℕ → ℕ → List A → List A
groups zero k xs = xs
groups (suc n) k xs = reverse (take k xs) ++ groups n k (drop k xs)

count-reverse_part :
    (b : Ptr) (c : Ptr × ℤ) (done xs rest : Cells)
    → count b (c ∷ (done ++ (reverse xs ++ rest))) ≡ count b (c ∷ (done ++ (xs ++ rest)))
unfolding count
count-reverse_part b c done xs rest = omega (
  arith,
  count-append b done (reverse xs ++ rest),
  count-append b (reverse xs) rest,
  count-append b done (xs ++ rest),
  count-append b xs rest,
  count-reverse b xs,
)

group_loop-suc :
    (fuel k n i : ℕ) (p : Ptr) (h : Heap)
    → group_loop fuel p k (suc n) i h
      ≡ after (group_body fuel p (i * k) ((i + 1) * k) h) (λ _. group_loop fuel p k n (i + 1))
unfolding group_loop group_body
group_loop-suc fuel k n i p h = simp after_assoc

-- The invariant of the loop over the groups: `done` is behind it, `left` in front.
group_loop-groups :
    (fuel k n i : ℕ) (h : Heap) (c : Ptr × ℤ) (done left : Cells)
    → Linked h (c ∷ (done ++ left)) null
    → Once (c ∷ (done ++ left))
    → length done ≡ i * suc k
    → n * suc k ≤ length left
    → length left < fuel
    → Ends
        (λ _ g.
          Linked g (c ∷ (done ++ groups n (suc k) left)) null
          × SameOutside (c ∷ (done ++ left)) h g)
        (group_loop fuel c.0 (suc k) n i h)
unfolding groups
group_loop-groups fuel k zero i h c done left l once e enough lt =
    unfold group_loop in (l, λ b o. refl)
group_loop-groups fuel k (suc n) i h c done [] l once e enough lt = absurd (omega arith)
group_loop-groups fuel k (suc n) i h c done (x ∷ left) l once e enough lt =
    let ys = take k left in
    let rest = drop k left in
    let room : k ≤ length left = omega arith in
    let size : length ys ≡ k = length-take k left room in
    let size_rest = length-drop k left in
    let turned = reverse (x ∷ ys) in
    let parts : x ∷ ys ++ rest ≡ x ∷ left = ap (λ xs. x ∷ xs) (take-append-drop k left) in
    let before : c ∷ (done ++ (x ∷ ys ++ rest)) ≡ c ∷ (done ++ x ∷ left) =
      ap (λ xs. c ∷ (done ++ xs)) parts in
    let regroup : (zs : Cells) → c ∷ (done ++ (turned ++ zs)) ≡ c ∷ ((done ++ turned) ++ zs) =
      λ zs. ap (λ xs. c ∷ xs) (sym (append_assoc done turned zs)) in
    let once' : Once (c ∷ (done ++ (x ∷ ys ++ rest))) = subst Once (sym before) once in
    let length_turned : length turned ≡ suc k = omega (arith, length-reverse (x ∷ ys)) in
    rw (group_loop-suc fuel (suc k) n i c.0 h) (
      Ends-after
        (λ _ g.
          Linked g (c ∷ (done ++ (turned ++ rest))) null
          × SameOutside (c ∷ (done ++ (x ∷ ys ++ rest))) h g)
        (λ _ g.
          Linked g (c ∷ (done ++ (turned ++ groups n (suc k) rest))) null
          × SameOutside (c ∷ (done ++ x ∷ left)) h g)
        (group_body fuel c.0 (i * suc k) ((i + 1) * suc k) h) _
        (group_body-reverse h fuel c done x ys rest (i * suc k) ((i + 1) * suc k)
          (subst (λ xs. Linked h xs null) (sym before) l) once' e (omega arith) (omega arith))
        (λ _ g (linked, same).
          Ends-mono
            (λ _ g'.
              Linked g' (c ∷ ((done ++ turned) ++ groups n (suc k) rest)) null
              × SameOutside (c ∷ ((done ++ turned) ++ rest)) g g')
            (λ _ g'.
              Linked g' (c ∷ (done ++ (turned ++ groups n (suc k) rest))) null
              × SameOutside (c ∷ (done ++ x ∷ left)) h g')
            _
            (group_loop-groups fuel k n (i + 1) g c (done ++ turned) rest
              (subst (λ xs. Linked g xs null) (regroup rest) linked)
              (subst Once (regroup rest)
                (λ b. rw (count-reverse_part b c done (x ∷ ys) rest) (once' b)))
              (omega (arith, length-append done turned)) (omega arith) (omega arith))
            (λ _ g' (linked', same'). (
              subst (λ xs. Linked g' xs null) (sym (regroup (groups n (suc k) rest))) linked',
              λ b out.
                  let out₁ : occurs b (c ∷ (done ++ (x ∷ ys ++ rest))) ≡ false =
                    subst (λ xs. occurs b xs ≡ false) (sym before) out in
                  let gone : count b (c ∷ (done ++ (turned ++ rest))) ≡ 0 =
                    count-reverse_part b c done (x ∷ ys) rest ∙ count-not_in b _ out₁ in
                  same' b (subst (λ xs. occurs b xs ≡ false) (regroup rest) (occurs-count b _ gone))
                  ∙ same b out₁,
            ))))

-- Given a list of the distinct nodes `cs`, an unused address for the extra node and more rounds than
-- nodes, `reverseKGroup` for a positive `k` ends, and returns the list of the same nodes in which
-- each full group of `k` is turned round and the rest is as it was. No other node is written.
pub reverse_k_group-groups :
    (fuel k : ℕ) (h : Heap) (prefix_head : Ptr) (cs : Cells)
    → Linked h cs null
    → Distinct cs
    → prefix_head ≢ null
    → occurs prefix_head cs ≡ false
    → length cs < fuel
    → Ends
        (λ p g.
          (p ≡ first (groups (length cs / suc k) (suc k) cs) null)
          × Linked g (groups (length cs / suc k) (suc k) cs) null
          × SameOutside ((prefix_head, pos 0) ∷ cs) h g)
        (reverse_k_group fuel prefix_head (first cs null) (suc k) h)
unfolding reverse_k_group
reverse_k_group-groups fuel k h prefix_head cs l d ne out lt =
    let c : Ptr × ℤ = (prefix_head, pos 0) in
    let h₁ : Heap = write h prefix_head (node (pos 0) (first cs null)) in
    let l₁ : Linked h₁ cs null = Linked-write h cs null prefix_head _ out l in
    let n = length cs / suc k in
    let zero_k : (suc k == 0) ≡ false = ground arith in
    rw (get_size-length h₁ fuel cs l₁ lt, zero_k)
      (Ends-after (λ _ g. Linked g (c ∷ groups n (suc k) cs) null × SameOutside (c ∷ cs) h₁ g)
        (λ p g.
          (p ≡ first (groups n (suc k) cs) null)
          × Linked g (groups n (suc k) cs) null
          × SameOutside (c ∷ cs) h g)
        (group_loop fuel prefix_head (suc k) n 0 h₁) _
        (group_loop-groups fuel k n 0 h₁ c [] cs
          (record { ne_null = ne; holds = write_self h prefix_head _ }, l₁)
          (Distinct-Once (c ∷ cs) (out, d)) (omega arith) (grind arith) lt)
        (λ _ g (linked, same). rw (load-value linked.0) (
          refl,
          linked.1,
          λ b o. same b o ∙ write_other h prefix_head b _ (ne_of_not_in b c cs o),
        )))

-- For `k` 0 the division by `k` traps.
reverse_k_group-zero :
    (fuel : ℕ) (h : Heap) (prefix_head : Ptr) (cs : Cells)
    → Linked h cs null
    → occurs prefix_head cs ≡ false
    → length cs < fuel
    → reverse_k_group fuel prefix_head (first cs null) 0 h ≡ trap
unfolding reverse_k_group
reverse_k_group-zero fuel h prefix_head cs l out lt =
    rw
      (get_size-length (write h prefix_head (node (pos 0) (first cs null))) fuel cs
        (Linked-write h cs null prefix_head _ out l) lt)
      refl
