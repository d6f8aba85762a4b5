-- ===== src/KGroup/Revert.antt =====
-- `do_revert` of 25-reverse-nodes-in-k-group.c turns the nodes between two others round.
use mathlib.Core.List.{reverse_aux}
use good_command.Common.{
  ℕ, zero, suc, ◌<◌, ◌≡◌, ◌≢◌, refl, sym, true, false, [], ◌∷◌, ◌++◌, arith, ◌==◌, length, reverse,
}
use good_command.Common.Int.{ℤ}
use good_command.KGroup.Heap.{
  Ptr, null, node, Heap, Cmd, write, Holds, ◌>>=◌, ◌>>◌, load-value, set_next-value,
  Holds-write_self, Holds-write_other, Ends, Ends-mono,
}
use good_command.KGroup.Chain.{
  Cells, occurs, first, Linked, Distinct, SameOutside, first-append, Linked-append, Linked-write,
  ne_of_not_in, not_in_rest,
}
use good_command.KGroup.{insert, removenode, revert_loop, do_revert}

-- After one round of the loop, where the node `q` behind `x` occurs come to stand behind `a`.
turned_heap : Heap → (a x q : Ptr) → (v w u : ℤ) → (f s : Ptr) → Heap
turned_heap h a x q v w u f s =
    write (write (write (write h x (node w s)) q (node u null)) q (node u f)) a (node v q)

module _ {h : Heap} {a x q : Ptr} {v w u : ℤ} {f s : Ptr} (ea : Holds h a v f) (ex : Holds h x w q)
    (eq : Holds h q u s) (ax : a ≢ x) (aq : a ≢ q) (xq : x ≢ q) where
  abbrev g : Heap
  g = turned_heap h a x q v w u f s

  turn-value :
      {B : Type 0} (k : Unit {0} → Cmd B) → (removenode x q >> (insert a q >>= k)) h ≡ k tt g
  unfolding removenode insert turned_heap
  turn-value k =
      let same : (q == q) ≡ true = ground arith in
      let eq₁ = Holds-write_other eq x (node w s) (λ e. xq (sym e)) in
      let eq₂ = Holds-write_self eq₁ u null in
      let ea₁ = Holds-write_other ea x (node w s) ax in
      let ea₂ = Holds-write_other ea₁ q (node u null) aq in
      let ea₃ = Holds-write_other ea₂ q (node u f) aq in
      rw
        (
          load-value ex,
          same,
          load-value eq,
          set_next-value ex s,
          set_next-value eq₁ null,
          load-value ea₂,
          set_next-value eq₂ f,
          set_next-value ea₃ q,
        )
        refl

  turned_head : Holds g a v q
  unfolding turned_heap write
  turned_head = record { ne_null = ea.ne_null; holds = ground arith }

  turned_last : Holds g x w s
  unfolding turned_heap write
  turned_last = record { ne_null = ex.ne_null; holds = ground arith }

  turned_moved : Holds g q u f
  unfolding turned_heap write
  turned_moved = record { ne_null = eq.ne_null; holds = ground arith }

  turned_others : (b : Ptr) → b ≢ a → b ≢ x → b ≢ q → g b ≡ h b
  unfolding turned_heap write
  turned_others b ba bx bq = ground arith

  turned-Linked :
      (cs : Cells) (stop : Ptr)
      → occurs a cs ≡ false
      → occurs x cs ≡ false
      → occurs q cs ≡ false
      → Linked h cs stop
      → Linked g cs stop
  unfolding turned_heap
  turned-Linked cs stop oa ox oq l = Linked-write _ cs stop a (node v q) oa (
      Linked-write _ cs stop q (node u f) oq
        (Linked-write _ cs stop q (node u null) oq (Linked-write _ cs stop x (node w s) ox l)))

-- What the loop leaves: `a` leads to the cells `cs`, these to `x`, and `x` to `tail`.
record Turned (h g : Heap) (a : Ptr × ℤ) (cs : Cells) (x : Ptr × ℤ) (tail : Ptr) (ws : Cells)
    : Type 0 where
  at_head : Holds g a.0 a.1 (first cs x.0)
  between : Linked g cs x.0
  at_last : Holds g x.0 x.1 tail
  same : SameOutside (a ∷ x ∷ ws) h g

-- `done` occurs been turned round, and the nodes `ys` are left.
revert_loop-Turned :
    (fuel : ℕ) {h : Heap} {a x : Ptr × ℤ} (done ys : Cells) (tail : Ptr)
    → Holds h a.0 a.1 (first done x.0)
    → Linked h done x.0
    → Holds h x.0 x.1 (first ys tail)
    → Linked h ys tail
    → Distinct (a ∷ x ∷ ys)
    → (occurs a.0 done ≡ false) × (occurs x.0 done ≡ false)
    → ((b : Ptr) → occurs b ys ≡ true → occurs b done ≡ false)
    → occurs tail ys ≡ false
    → length ys < fuel
    → Ends
        (λ _ g. Turned h g a (reverse_aux ys done) x tail ys)
        (revert_loop fuel a.0 x.0 tail (first ys tail) h)
unfolding revert_loop
revert_loop-Turned zero done ys tail ea ld ex ly d out apart stop lt = absurd (omega arith)
revert_loop-Turned (suc fuel) done [] tail ea ld ex ly d out apart stop lt =
    let same : (tail == tail) ≡ true = ground arith in
    rw same record { at_head = ea; between = ld; at_last = ex; same = λ b o. refl }
revert_loop-Turned (suc fuel) {h} {a} {x} done (y ∷ ys) tail ea ld ex ly d out apart stop lt =
    let go_on : (y.0 == tail) ≡ false = ground arith in
    let ax : a.0 ≢ x.0 = ne_of_not_in a.0 x (y ∷ ys) d.0 in
    let aq : a.0 ≢ y.0 = ne_of_not_in a.0 y ys (not_in_rest a.0 x (y ∷ ys) d.0) in
    let xq : x.0 ≢ y.0 = ne_of_not_in x.0 y ys d.1.0 in
    let new : occurs y.0 done ≡ false = apart y.0 (ground arith) in
    rw (go_on, load-value ly.0, turn-value ea ex ly.0 ax aq xq _)
      (Ends-mono
        (λ _ g'.
          Turned (turned_heap h a.0 x.0 y.0 a.1 x.1 y.1 (first done x.0) (first ys tail)) g' a
            (reverse_aux ys (y ∷ done)) x tail ys)
        (λ _ g'. Turned h g' a (reverse_aux ys (y ∷ done)) x tail (y ∷ ys)) _
        (revert_loop-Turned fuel (y ∷ done) ys tail (turned_head ea ex ly.0 ax aq xq)
          (
            turned_moved ea ex ly.0 ax aq xq,
            turned-Linked ea ex ly.0 ax aq xq done x.0 out.0 out.1 new ld,
          )
          (turned_last ea ex ly.0 ax aq xq)
          (turned-Linked ea ex ly.0 ax aq xq ys tail (ground arith) (ground arith) (ground arith)
            ly.1)
          (ground arith) (ground arith) (λ b i. ground (arith, apart b)) (ground arith)
          (omega arith))
        (λ _ g t. record {
          at_head = t.at_head;
          between = t.between;
          at_last = t.at_last;
          same = λ b o. ground (arith, t.same b, turned_others ea ex ly.0 ax aq xq b);
        }))

reverse_aux-append : (xs ys zs : Cells) → reverse_aux xs (ys ++ zs) ≡ reverse_aux xs ys ++ zs
reverse_aux-append [] ys zs = refl
reverse_aux-append (x ∷ xs) ys zs = reverse_aux-append xs (x ∷ ys) zs

-- The nodes between `a` and `tail` are turned round, and no other node is written.
pub record Reverted (h g : Heap) (a : Ptr × ℤ) (cs : Cells) (tail : Ptr) : Type 0 where
  pub at_head : Holds g a.0 a.1 (first (reverse cs) tail)
  pub linked : Linked g (reverse cs) tail
  pub same : SameOutside (a ∷ cs) h g

pub do_revert-Reverted :
    (fuel : ℕ) {h : Heap} {a x : Ptr × ℤ} (ys : Cells) (tail : Ptr)
    → Holds h a.0 a.1 x.0
    → Linked h (x ∷ ys) tail
    → Distinct (a ∷ x ∷ ys)
    → occurs tail ys ≡ false
    → length ys < fuel
    → Ends (λ _ g. Reverted h g a (x ∷ ys) tail) (do_revert fuel a.0 tail h)
unfolding do_revert
do_revert-Reverted fuel {h} {a} {x} ys tail ea l d stop lt =
    rw (load-value ea, load-value l.0)
      (Ends-mono (λ _ g. Turned h g a (reverse_aux ys []) x tail ys)
        (λ _ g. Reverted h g a (x ∷ ys) tail) _
        (revert_loop-Turned fuel [] ys tail ea tt l.0 l.1 d (refl, refl) (λ b i. refl) stop lt)
        (λ _ g t. record {
          at_head = rw (reverse_aux-append ys [] (x ∷ []), first-append) t.at_head;
          linked =
              rw (reverse_aux-append ys [] (x ∷ []))
                (Linked-append g (reverse_aux ys []) (x ∷ []) tail t.between (t.at_last, tt));
          same = t.same;
        }))
