-- ===== src/KGroup/Round.antt =====
-- One round of the loop of `reverseKGroup`: one group is turned round within the list.
use mathlib.Core.Path.{subst}
use good_command.Common.{
  ℕ, suc, ◌+◌, ◌<◌, ◌≡◌, refl, ◌∙◌, sym, ap, false, List, [], ◌∷◌, ◌++◌, arith, length, value, Exec,
  reverse, append_assoc, length-append,
}
use good_command.Common.Int.{ℤ}
use good_command.KGroup.Heap.{Ptr, null, Heap, ◌>>=◌, load, Ends, Ends-mono, load-value}
use good_command.KGroup.Chain.{
  Cells, occurs, first, Linked, SameOutside, Linked-split, not_in-left, not_in-right,
}
use good_command.KGroup.Count.{Once}
use good_command.KGroup.Walk.{get_node_by_index-append}
use good_command.KGroup.Groups.{do_revert-within}
use good_command.KGroup.{do_revert, get_node_by_index}

snoc-view {ℓ} :
    {A : Type ℓ} (c : A) (cs : List A)
    → (ps : List A) × (z : A) × (c ∷ cs ≡ ps ++ z ∷ []) × (length ps ≡ length cs)
snoc-view c [] = ([], c, refl, refl)
snoc-view c (d ∷ cs) =
    let (ps, z, e, n) = snoc-view d cs in (c ∷ ps, z, ap (λ xs. c ∷ xs) e, ap suc n)

node-at :
    (h : Heap) (cs ps : Cells) (a : Ptr × ℤ) (rest : Cells)
    → cs ≡ ps ++ a ∷ rest
    → Linked h cs null
    → get_node_by_index (length ps) (first cs null) h ≡ value (a.0, h)
node-at h cs ps a rest e l = rw e (get_node_by_index-append h ps a rest (rw e at l))

-- The round for the group `x ∷ ys`, before the loop goes on.
unfoldable pub group_body : ℕ → Ptr → (from to : ℕ) → Heap → Exec (Unit {0} × Heap)
group_body fuel prefix_head from to = do
  p1 ← get_node_by_index from prefix_head
  p2 ← get_node_by_index to prefix_head
  n ← load p2
  do_revert fuel p1 n.next

pub group_body-reverse :
    (h : Heap) (fuel : ℕ) (c : Ptr × ℤ) (done : Cells) (x : Ptr × ℤ) (ys rest : Cells) (from to : ℕ)
    → Linked h (c ∷ (done ++ (x ∷ ys ++ rest))) null
    → Once (c ∷ (done ++ (x ∷ ys ++ rest)))
    → length done ≡ from
    → length done + suc (length ys) ≡ to
    → length ys < fuel
    → Ends
        (λ _ g.
          Linked g (c ∷ (done ++ (reverse (x ∷ ys) ++ rest))) null
          × SameOutside (c ∷ (done ++ (x ∷ ys ++ rest))) h g)
        (group_body fuel c.0 from to h)
unfolding group_body
group_body-reverse h fuel c done x ys rest from to l once e₁ e₂ lt =
    let cs = c ∷ (done ++ (x ∷ ys ++ rest)) in
    let (ps, a, ep, np) = snoc-view c done in
    let (qs, z, eq, nq) = snoc-view c (done ++ x ∷ ys) in
    let whole : (ts : Cells) → c ∷ (done ++ ts) ≡ ps ++ a ∷ ts =
      λ ts. ap (λ xs. xs ++ ts) ep ∙ append_assoc ps (a ∷ []) ts in
    let whole₂ : cs ≡ qs ++ z ∷ rest =
      ap (λ xs. c ∷ xs) (sym (append_assoc done (x ∷ ys) rest))
      ∙ ap (λ xs. xs ++ rest) eq
      ∙ append_assoc qs (z ∷ []) rest in
    let i₁ : from ≡ length ps = omega arith in
    let i₂ : to ≡ length qs = omega (arith, length-append done (x ∷ ys)) in
    let at_z = (Linked-split h qs (z ∷ rest) null (subst (λ xs. Linked h xs null) whole₂ l)).1.0 in
    let behind = a ∷ x ∷ ys in
    let all = whole (x ∷ ys ++ rest) in
    rw
      (
        i₁,
        node-at h cs ps a (x ∷ ys ++ rest) all l,
        i₂,
        node-at h cs qs z rest whole₂ l,
        load-value at_z,
      )
      (Ends-mono
        (λ _ g. Linked g (ps ++ a ∷ (reverse (x ∷ ys) ++ rest)) null × SameOutside behind h g)
        (λ _ g. Linked g (c ∷ (done ++ (reverse (x ∷ ys) ++ rest))) null × SameOutside cs h g) _
        (do_revert-within h fuel ps a x ys rest (subst (λ xs. Linked h xs null) all l)
          (subst Once all once) lt)
        (λ _ g (linked, same). (
          subst (λ xs. Linked g xs null) (sym (whole (reverse (x ∷ ys) ++ rest))) linked,
          λ b out. same b (
              not_in-left b behind rest
                (not_in-right b ps (behind ++ rest) (subst (λ xs. occurs b xs ≡ false) all out))),
        )))
