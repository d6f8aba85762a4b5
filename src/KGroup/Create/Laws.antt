-- ===== src/KGroup/Create/Laws.antt =====
-- The list that `create_list` of 25-reverse-nodes-in-k-group.c makes.
use mathlib.Core.Path.{subst}
use good_command.Common.{
  ℕ, zero, suc, ◌+◌, ◌<◌, ◌≡◌, ◌≢◌, refl, ◌∙◌, sym, false, List, [], ◌∷◌, ◌++◌, arith, length,
  append_assoc, length-append, value,
}
use good_command.Common.Int.{ℤ, pos}
use good_command.KGroup.Heap.{
  Ptr, null, node, Heap, write, Holds, Ends, Ends-mono, Ends-after, not_null, load-value,
  set_next-value, Holds-write_self, Holds-write_other, write_self, write_other,
}
use good_command.KGroup.Chain.{
  Cells, occurs, first, Linked, SameOutside, Distinct, Linked-write, Linked-append, Linked-split,
  occurs-append, not_in-left, not_in-right,
}
use good_command.KGroup.Create.{visit_loop, last_loop, create_loop, create_list}

-- The addresses, numbered from `i` on.
abbrev pub number : ℕ → List Ptr → Cells
number i [] = []
number i (p ∷ ps) = (p, pos i) ∷ number (i + 1) ps

pub visit_loop-cells :
    (fuel : ℕ) (h : Heap) (cs : Cells)
    → Linked h cs null
    → length cs < fuel
    → visit_loop fuel (first cs null) h ≡ value (cs, h)
unfolding visit_loop
visit_loop-cells zero h cs l lt = absurd (omega arith)
visit_loop-cells (suc fuel) h [] l lt = refl
visit_loop-cells (suc fuel) h (c ∷ cs) l lt =
    rw (not_null l.0, load-value l.0) (rw (visit_loop-cells fuel h cs l.1 (omega arith)) refl)

-- The walk to the last node.
last_loop-cell :
    (fuel : ℕ) (h : Heap) (cs : Cells) (c : Ptr × ℤ)
    → Linked h (cs ++ c ∷ []) null
    → length cs < fuel
    → last_loop fuel (first (cs ++ c ∷ []) null) h ≡ value (c.0, h)
unfolding last_loop
last_loop-cell zero h cs c l lt = absurd (omega arith)
last_loop-cell (suc fuel) h [] c l lt = rw (load-value l.0) refl
last_loop-cell (suc fuel) h (b ∷ []) c l lt =
    rw (load-value l.0) (rw (not_null l.1.0) (last_loop-cell fuel h [] c l.1 (omega arith)))
last_loop-cell (suc fuel) h (b ∷ d ∷ cs) c l lt =
    rw (load-value l.0) (rw (not_null l.1.0) (last_loop-cell fuel h (d ∷ cs) c l.1 (omega arith)))

Distinct-middle :
    (cs : Cells) (c : Ptr × ℤ) (rest : Cells) → Distinct (cs ++ c ∷ rest) → occurs c.0 cs ≡ false
Distinct-middle [] c rest d = refl
Distinct-middle (b ∷ cs) c rest d =
    ground (arith, d.0, Distinct-middle cs c rest d.1, occurs-append b.0 cs (c ∷ rest))

first-again :
    (cs : Cells) (c : Ptr × ℤ) (rest : Cells)
    → first (cs ++ c ∷ []) null ≡ first ((cs ++ c ∷ []) ++ rest) null
first-again [] c rest = refl
first-again (b ∷ cs) c rest = refl

-- A new node behind the last one.
module _ (h : Heap) (cs : Cells) (a p : Ptr) (v w : ℤ) (l : Linked h (cs ++ (a, v) ∷ []) null)
    (old : occurs a cs ≡ false) (new : occurs p (cs ++ (a, v) ∷ []) ≡ false) (ne : p ≢ null) where
  grown : Heap
  grown = write (write h p (node w null)) a (node v p)

  apart : p ≢ a
  apart e = let out = not_in-right p cs ((a, v) ∷ []) new in ground (arith, out, e)

  last : Holds h a v null
  last = (Linked-split h cs ((a, v) ∷ []) null l).1.0

  grown-Linked : Linked grown ((cs ++ (a, v) ∷ []) ++ (p, w) ∷ []) null
  unfolding grown
  grown-Linked =
      let h₁ : Heap = write h p (node w null) in
      let front : Linked h₁ cs a =
        Linked-write h cs a p _ (not_in-left p cs ((a, v) ∷ []) new)
          (Linked-split h cs ((a, v) ∷ []) null l).0 in
      let here : Holds h₁ a v null = Holds-write_other last p _ (λ e. apart (sym e)) in
      let behind : Holds h₁ p w null = record { ne_null = ne; holds = write_self h p _ } in
      Linked-append grown (cs ++ (a, v) ∷ []) ((p, w) ∷ []) null
        (Linked-append grown cs ((a, v) ∷ []) p (Linked-write h₁ cs a a _ old front)
          (Holds-write_self here v p, tt))
        (Holds-write_other behind a _ apart, tt)

  grown-SameOutside : (b : Ptr) → b ≢ a → b ≢ p → grown b ≡ h b
  unfolding grown
  grown-SameOutside b ne_a ne_p = write_other _ a b _ ne_a ∙ write_other h p b _ ne_p

  -- A round of the loop.
  create_loop-grown :
      (fuel i : ℕ) (ps : List Ptr) (new_head : Ptr)
      → w ≡ pos i
      → new_head ≡ first (cs ++ (a, v) ∷ []) null
      → length cs < fuel
      → create_loop fuel new_head i (p ∷ ps) h ≡ create_loop fuel new_head (i + 1) ps grown
  unfolding create_loop grown
  create_loop-grown fuel i ps new_head e at_head lt =
      let h₁ : Heap = write h p (node w null) in
      let walked : last_loop fuel new_head h₁ ≡ value (a, h₁) =
        rw at_head (
          last_loop-cell fuel h₁ cs (a, v) (Linked-write h (cs ++ (a, v) ∷ []) null p _ new l)
            lt) in
      let linked = set_next-value (Holds-write_other last p (node w null) (λ e. apart (sym e))) p in
      rw (← e, walked, linked) refl

-- `cs` is a list, and outside it nothing is written.
abbrev Made : Cells → Heap → Unit {0} → Heap → Type 0
Made cs h _ g = Linked g cs null × SameOutside cs h g

create_loop-Linked :
    (fuel i : ℕ) (ps : List Ptr) (h : Heap) (cs : Cells) (a : Ptr) (v : ℤ) (new_head : Ptr)
    → Linked h (cs ++ (a, v) ∷ []) null
    → Distinct (cs ++ (a, v) ∷ number i ps)
    → occurs null (number i ps) ≡ false
    → new_head ≡ first (cs ++ (a, v) ∷ []) null
    → length cs + length ps < fuel
    → Ends (Made (cs ++ (a, v) ∷ number i ps) h) (create_loop fuel new_head i ps h)
create_loop-Linked fuel i [] h cs a v new_head l d no_null at_head lt =
    unfold create_loop in (l, λ b out. refl)
create_loop-Linked fuel i (p ∷ ps) h cs a v new_head l d no_null at_head lt =
    let rest : Cells = (p, pos i) ∷ number (i + 1) ps in
    let cs' : Cells = cs ++ (a, v) ∷ [] in
    let regroup : cs' ++ rest ≡ cs ++ (a, v) ∷ rest = append_assoc cs ((a, v) ∷ []) rest in
    let d' : Distinct (cs' ++ rest) = subst Distinct (sym regroup) d in
    let old : occurs a cs ≡ false = Distinct-middle cs (a, v) rest d in
    let new : occurs p cs' ≡ false = Distinct-middle cs' (p, pos i) (number (i + 1) ps) d' in
    let ne : p ≢ null = λ e. ground (arith, no_null, e) in
    let g = grown h cs a p v (pos i) l old new ne in
    let at : new_head ≡ first (cs' ++ (p, pos i) ∷ []) null =
      at_head ∙ first-again cs (a, v) ((p, pos i) ∷ []) in
    rw
      (create_loop-grown h cs a p v (pos i) l old new ne fuel i ps new_head refl at_head
        (omega arith))
      (Ends-mono (Made (cs' ++ rest) g) (Made (cs ++ (a, v) ∷ rest) h)
        (create_loop fuel new_head (i + 1) ps g)
        (create_loop-Linked fuel (i + 1) ps g cs' p (pos i) new_head
          (grown-Linked h cs a p v (pos i) l old new ne) d' (ground (arith, no_null)) at
          (omega (arith, length-append cs ((a, v) ∷ []))))
        λ _ g' (linked, same). (
          subst (λ xs. Linked g' xs null) regroup linked,
          λ b out.
              let apart = not_in-right b cs ((a, v) ∷ rest) out in
              same b (rw regroup out)
              ∙ grown-SameOutside h cs a p v (pos i) l old new ne b (λ e. ground (arith, apart, e))
                  (λ e. ground (arith, apart, e)),
        ))

-- `malloc` returns distinct addresses, and not NULL.
abbrev pub Fresh : (new_head : Ptr) → List Ptr → Type 0
Fresh new_head ps =
    Distinct ((new_head, pos 0) ∷ number 1 ps)
    × (occurs null ((new_head, pos 0) ∷ number 1 ps) ≡ false)

-- Given distinct new addresses and more rounds than nodes, `create_list` ends, and returns the list of
-- the nodes at these addresses in order, with the values from 0 on. No other node is written.
pub create_list-number :
    (fuel : ℕ) (new_head : Ptr) (ps : List Ptr) (h : Heap)
    → Fresh new_head ps
    → length ps < fuel
    → Ends
        (λ p g.
          (p ≡ new_head)
          × Linked g ((new_head, pos 0) ∷ number 1 ps) null
          × SameOutside ((new_head, pos 0) ∷ number 1 ps) h g)
        (create_list fuel new_head ps h)
unfolding create_list
create_list-number fuel new_head ps h (d, no_null) lt =
    let h₁ : Heap = write h new_head (node (pos 0) null) in
    let start : Holds h₁ new_head (pos 0) null = record {
      ne_null = λ e. ground (arith, no_null, e);
      holds = write_self h new_head _;
    } in
    Ends-after (Made ((new_head, pos 0) ∷ number 1 ps) h₁) _ (create_loop fuel new_head 1 ps h₁) _
      (create_loop-Linked fuel 1 ps h₁ [] new_head (pos 0) new_head (start, tt) d
        (ground (arith, no_null)) refl (omega arith))
      λ _ g (linked, same). (
        refl,
        linked,
        λ b out. same b out ∙ write_other h new_head b _ (λ e. ground (arith, out, e)),
      )
