-- ===== src/Frequency/Sorted.antt =====
-- The result of 451-sort-frequency.c: the bytes of the text, grouped, the larger groups first.
use mathlib.Core.List.{Perm, append-nil}
use mathlib.Core.List.Perm
use good_command.Common.Perm.{Perm-length}
use good_command.Common.{
  ℕ, ◌+◌, ◌^◌, ◌<◌, ◌≡◌, refl, sym, ap, ◌∙◌, inl, inr, true, false, List, [], ◌∷◌, arith, ltb, ◌==◌,
  Bool-cases, length, replicate, value, Yields, Yields-bind,
}
use good_command.Common.Int.{pos, ◌-ℤ◌, ltb_ℤ}
use good_command.Clib.Int32
use good_command.Clib.Qsort.{Sorter, IsLe, IsOrder, SortedBy, IsQsort}
use good_command.Sorted.{All}
use good_command.Frequency.{
  char_max, Elemnt, cleared, compare, count_loop, copies, emit_loop, frequency_sort,
}
use good_command.Frequency.Pool.{
  expand, expand-Perm, IsPlace, InPool, Pool, cleared-Pool, count_loop-Pool, Pool-All, count-nul,
}

compare-IsLe :
    (w : List ℕ) (a b : Elemnt)
    → IsPlace w a
    → IsPlace w b
    → ltb_ℤ (pos 0) (compare a b) ≡ ltb_ℤ a.frequency b.frequency
unfolding compare Int32.sub ◌-ℤ◌
compare-IsLe w a b p q =
    let (n, e, small) = p.counts in
    let (m, e', small') = q.counts in
    rw (e, e', Int32.to_int-eq_self (pos m -ℤ pos n) (ground arith)) (ground arith)

compare-IsOrder : (w : List ℕ) → IsOrder (IsPlace w) compare
compare-IsOrder w = record {
  total = λ a b p q. elim (Bool-cases (ltb_ℤ a.frequency b.frequency)) [
    | inl gt ↦ inr (compare-IsLe w b a q p ∙ ground arith)
    | inr le ↦ inl (compare-IsLe w a b p q ∙ le)
  ];
  trans = λ a b c p q r le le'.
      let e : ltb_ℤ a.frequency b.frequency ≡ false = sym (compare-IsLe w a b p q) ∙ le in
      let e' : ltb_ℤ b.frequency c.frequency ≡ false = sym (compare-IsLe w b c q r) ∙ le' in
      compare-IsLe w a c p r ∙ ground arith;
}

expand-zero :
    (w : List ℕ) (x : Elemnt) (pool : List Elemnt)
    → x.frequency ≡ pos 0
    → IsPlace w x
    → All (IsPlace w) pool
    → All (IsLe compare x) pool
    → expand pool ≡ []
expand-zero w x [] e p ps h = refl
expand-zero w x (y ∷ pool) e p ps h =
    let (n, e', small) = ps.0.counts in
    let le : ltb_ℤ x.frequency y.frequency ≡ false = sym (compare-IsLe w x y p ps.0) ∙ h.0 in
    let none : n ≡ 0 = ground (arith, rw (e, e') at le) in
    rw (e', none) (expand-zero w x pool e p ps.1 h.1)

emit_loop-expand :
    (w : List ℕ) (pool : List Elemnt)
    → All (IsPlace w) pool
    → SortedBy (IsLe compare) pool
    → emit_loop pool ≡ value (expand pool)
unfolding emit_loop copies
emit_loop-expand w [] ps h = refl
emit_loop-expand w (x ∷ pool) ps h =
    let (n, e, small) = ps.0.counts in
    elim (Bool-cases (x.e == 0)) [
      | inl stop ↦
          let zero_count = ps.0.unused (ground arith) in
          rw (stop, zero_count) (ap value (sym (expand-zero w x pool zero_count ps.0 ps.1 h.0)))
      | inr go_on ↦ rw (go_on, e, emit_loop-expand w pool ps.1 h.1) refl
    ]

-- The first count is the larger one.
abbrev pub CountGe : Elemnt → Elemnt → Type 0
CountGe x y = ltb_ℤ x.frequency y.frequency ≡ false

-- `r` is `s` in groups of equal bytes, each with all occurrences of its byte, and no group is larger than
-- one in front of it.
pub record IsByFrequency (s r : List ℕ) : Type 0 where
  pub places : List Elemnt
  pub groups : r ≡ expand places
  pub whole : All (IsPlace s) places
  pub order : SortedBy CountGe places
  pub bytes : Perm r s

All-CountGe :
    (w : List ℕ) (x : Elemnt) (pool : List Elemnt)
    → IsPlace w x
    → All (IsPlace w) pool
    → All (IsLe compare x) pool
    → All (CountGe x) pool
All-CountGe w x [] p ps h = tt
All-CountGe w x (y ∷ pool) p ps h =
    (sym (compare-IsLe w x y p ps.0) ∙ h.0, All-CountGe w x pool p ps.1 h.1)

SortedBy-CountGe :
    (w : List ℕ) (pool : List Elemnt)
    → All (IsPlace w) pool
    → SortedBy (IsLe compare) pool
    → SortedBy CountGe pool
SortedBy-CountGe w [] ps h = tt
SortedBy-CountGe w (x ∷ pool) ps h =
    (All-CountGe w x pool ps.0 ps.1 h.0, SortedBy-CountGe w pool ps.1 h.1)

-- On a text of bytes from 1 to 126 that is shorter than 2 ^ 31, and with a `qsort` as the C standard describes
-- it, the function ends within its buffer; the result has the bytes of the text, each with all its
-- occurrences in one group, and no group is larger than one in front of it.
pub frequency_sort-IsByFrequency :
    (qsort : Sorter Elemnt) (s : List ℕ)
    → IsQsort qsort
    → InPool s
    → length s < 2 ^ 31
    → Yields (IsByFrequency s) (frequency_sort qsort s)
unfolding frequency_sort
frequency_sort-IsByFrequency qsort s q h small =
    Yields-bind (Pool s []) (IsByFrequency s) (count_loop s (replicate char_max cleared)) _
      (count_loop-Pool s s (replicate char_max cleared) small h (cleared-Pool s))
      (λ pool p.
        let places = Pool-All s pool small (count-nul s h) p in
        let sorted = qsort compare pool in
        let whole = q.keeps compare (IsPlace s) pool places in
        let order = q.sorts (IsPlace s) compare pool (compare-IsOrder s) places in
        let same : Perm (expand sorted) s =
          Perm.trans (expand-Perm (q.perm compare pool))
            (rw (append-nil (expand pool)) at p.bytes) in
        let fits : ltb (length (expand sorted)) (length s + 1) ≡ true =
          ground (arith, Perm-length same) in
        rw (emit_loop-expand s sorted whole order, fits)
          record {
            places = sorted;
            groups = refl;
            whole = whole;
            order = SortedBy-CountGe s sorted whole order;
            bytes = same;
          })
