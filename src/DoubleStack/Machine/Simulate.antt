-- ===== src/DoubleStack/Machine/Simulate.antt =====
-- The calculator on its bounded arrays does what it does on unbounded lists: no push ever finds a
-- stack full.
use good_command.Common.{
  ℕ, zero, suc, ◌+◌, ◌-◌, ◌≤◌, ◌≡◌, refl, List, [], ◌∷◌, arith, leb, ◌==◌, length, drop,
  length-drop, Agree, values, no_fuels, Agree-bind, Agree-same, Agree-if, Agree-option, Agree-eq,
}
use good_command.Common.Int.{ℤ, pos, ◌==ℤ◌}
use good_command.Clib.Scan.{scan_int}
use good_command.Clib.Scan.Laws.{scan_int-reads}
use good_command.DoubleStack.Stack.{array_stack, stack_init, stack_pop, stack_push}
use good_command.DoubleStack.Stack.Refine.{
  list_stack, list_pop, list_is_empty, list_top, Holds, init-Holds, is_empty-Holds, top-Holds,
  push-Holds, pop-Holds,
}
use good_command.DoubleStack.Machine.{
  is_legal_op, prio, do_one_cal, Stacks, pop_and_cal, close_loop, reduce_loop, flush_loop,
  on_operator, calc_loop, finish, run, calculate_within,
}

-- Both stacks are held, with at most `p` operators and `q` numbers.
record Related (cap p q : ℕ) (a : Stacks array_stack) (b : Stacks list_stack) : Type 0 where
  ops : Holds cap a.0 b.0
  nums : Holds cap a.1 b.1
  few_ops : length b.0 ≤ p
  few_nums : length b.1 ≤ q

length-list_pop : (xs : List ℤ) → length (list_pop xs).1 ≡ length xs - 1
length-list_pop [] = omega arith
length-list_pop (x ∷ xs) = omega arith

module _ {cap p q : ℕ} (small : q ≤ cap) (some_room : 1 ≤ q) where
  pop_and_cal-Related :
      {a : Stacks array_stack} {b : Stacks list_stack}
      → Related cap p q a b
      → Agree (Related cap p q) (pop_and_cal array_stack a) (pop_and_cal list_stack b)
  unfolding pop_and_cal
  pop_and_cal-Related {a} {b} r =
      let op = pop-Holds b.0 r.ops in
      let a1 = pop-Holds b.1 r.nums in
      let a2 = pop-Holds (list_pop b.1).1 a1.1 in
      let left : List ℤ = (list_pop (list_pop b.1).1).1 in
      rw (op.0, a1.0, a2.0)
        (Agree-same (do_one_cal (list_pop b.0).0 (list_pop b.1).0 (list_pop (list_pop b.1).1).0)
          λ v. values record {
            ops = op.1;
            nums =
                push-Holds left v
                  (omega (arith, length-list_pop b.1, length-list_pop (list_pop b.1).1, r.few_nums))
                  a2.1;
            few_ops = omega (arith, length-list_pop b.0, r.few_ops);
            few_nums =
                omega (arith, length-list_pop b.1, length-list_pop (list_pop b.1).1, r.few_nums);
          })

  close_loop-Related :
      (rounds : ℕ) (a : Stacks array_stack) (b : Stacks list_stack)
      → Related cap p q a b
      → Agree (Related cap p q) (close_loop array_stack rounds a) (close_loop list_stack rounds b)
  unfolding close_loop
  close_loop-Related zero a b r = no_fuels
  close_loop-Related (suc rounds) a b r = rw (top-Holds b.0 r.ops) (
      Agree-if (list_top b.0 ==ℤ pos b'(') (values r)
        (Agree-bind (pop_and_cal-Related r) (close_loop-Related rounds)))

  reduce_loop-Related :
      (rounds c : ℕ) (a : Stacks array_stack) (b : Stacks list_stack)
      → Related cap p q a b
      → Agree
          (Related cap p q)
          (reduce_loop array_stack rounds c a)
          (reduce_loop list_stack rounds c b)
  unfolding reduce_loop
  reduce_loop-Related zero c a b r = no_fuels
  reduce_loop-Related (suc rounds) c a b r = rw (top-Holds b.0 r.ops) (
      Agree-same (prio (pos c)) λ u. Agree-same (prio (list_top b.0)) λ v.
        Agree-if (leb u v)
          (Agree-bind (pop_and_cal-Related r) λ a' b' r'.
            rw (is_empty-Holds b'.0 r'.ops)
              (Agree-if (list_is_empty b'.0) (values r') (reduce_loop-Related rounds c a' b' r')))
          (values r))

  flush_loop-Related :
      (rounds : ℕ) (a : Stacks array_stack) (b : Stacks list_stack)
      → Related cap p q a b
      → Agree (Related cap p q) (flush_loop array_stack rounds a) (flush_loop list_stack rounds b)
  unfolding flush_loop
  flush_loop-Related zero a b r = no_fuels
  flush_loop-Related (suc rounds) a b r = rw (is_empty-Holds b.0 r.ops) (
      Agree-if (list_is_empty b.0) (values r)
        (Agree-bind (pop_and_cal-Related r) (flush_loop-Related rounds)))

widen :
    {cap p q p' q' : ℕ} {a : Stacks array_stack} {b : Stacks list_stack}
    → Related cap p q a b
    → p ≤ p'
    → q ≤ q'
    → Related cap p' q' a b
widen r hp hq = record {
  ops = r.ops;
  nums = r.nums;
  few_ops = omega (arith, r.few_ops);
  few_nums = omega (arith, r.few_nums);
}

module _ {cap d : ℕ} (small : suc d ≤ cap) where
  push_op-Related :
      {a : Stacks array_stack} {b : Stacks list_stack} (c : ℤ)
      → Related cap d (suc d) a b
      → Related cap (suc d) (suc d) (stack_push a.0 c, a.1) (c ∷ b.0, b.1)
  push_op-Related {b} c r = record {
    ops = push-Holds b.0 c (omega (arith, r.few_ops)) r.ops;
    nums = r.nums;
    few_ops = omega (arith, r.few_ops);
    few_nums = r.few_nums;
  }

  popped :
      {a : Stacks array_stack} {b : Stacks list_stack}
      → Related cap d (suc d) a b
      → Related cap (suc d) (suc d) ((stack_pop a.0).1, a.1) ((list_pop b.0).1, b.1)
  popped {b} r = record {
    ops = (pop-Holds b.0 r.ops).1;
    nums = r.nums;
    few_ops = omega (arith, length-list_pop b.0, r.few_ops);
    few_nums = r.few_nums;
  }

  on_operator-Related :
      (rounds c : ℕ) {a : Stacks array_stack} {b : Stacks list_stack}
      → Related cap d d a b
      → Agree
          (Related cap (suc d) (suc d))
          (on_operator array_stack rounds c a)
          (on_operator list_stack rounds c b)
  unfolding on_operator
  on_operator-Related rounds c {a} {b} r =
      let r' : Related cap d (suc d) a b = widen r (omega arith) (omega arith) in
      rw (is_empty-Holds b.0 r.ops) (
        Agree-if (list_is_empty b.0) (values (push_op-Related (pos c) r')) (
          Agree-if (c == b'(') (values (push_op-Related (pos c) r')) (
            Agree-if (c == b')')
              (Agree-bind (close_loop-Related small (omega arith) rounds a b r')
                λ u v t. values (popped t))
              (Agree-bind (reduce_loop-Related small (omega arith) rounds c a b r')
                λ u v t. values (push_op-Related (pos c) t)))))

  push_num-Related :
      {a : Stacks array_stack} {b : Stacks list_stack} (v : ℤ)
      → Related cap d d a b
      → Related cap (suc d) (suc d) (a.0, stack_push a.1 v) (b.0, v ∷ b.1)
  push_num-Related {b} v r = record {
    ops = r.ops;
    nums = push-Holds b.1 v (omega (arith, r.few_nums)) r.nums;
    few_ops = omega (arith, r.few_ops);
    few_nums = omega (arith, r.few_nums);
  }

module _ {cap : ℕ} (rounds : ℕ) where
  calc_loop-Related :
      (fuel d : ℕ) (s : List ℕ) (a : Stacks array_stack) (b : Stacks list_stack)
      → d + length s ≤ cap
      → Related cap d d a b
      → Agree
          (Related cap cap cap)
          (calc_loop array_stack rounds fuel s a)
          (calc_loop list_stack rounds fuel s b)
  unfolding calc_loop
  calc_loop-Related zero d s a b fits r = no_fuels
  calc_loop-Related (suc fuel) d [] a b fits r = values (widen r (omega arith) (omega arith))
  calc_loop-Related (suc fuel) d (c ∷ s) a b fits r =
      Agree-if (is_legal_op c)
        (Agree-bind (on_operator-Related (omega arith) rounds c r)
          (λ a' b' r'. calc_loop-Related fuel (suc d) s a' b' (omega arith) r'))
        (Agree-if (c == b' ') (calc_loop-Related fuel d s a b (omega arith) r) (
          Agree-option (scan_int (c ∷ s)) (calc_loop-Related fuel d (c ∷ s) a b (omega arith) r)
            λ found e.
              calc_loop-Related fuel (suc d) (drop found.1 (c ∷ s)) _ _
                (omega
                  (arith, scan_int-reads (c ∷ s) found.0 found.1 e, length-drop found.1 (c ∷ s)))
                (push_num-Related (omega arith) found.0 r)))

init-Related : (cap : ℕ) → Related cap 0 0 (stack_init cap, stack_init cap) ([], [])
init-Related cap = record {
  ops = init-Holds cap;
  nums = init-Holds cap;
  few_ops = omega arith;
  few_nums = omega arith;
}

-- The empty text, for which no stack has any room.
calculate-nil : (rounds : ℕ) → calculate_within rounds [] ≡ run list_stack rounds [] ([], [])
unfolding calculate_within run finish calc_loop flush_loop stack_init stack_pop
calculate-nil zero = refl
calculate-nil (suc rounds) = refl

calculate-cons :
    (rounds c : ℕ) (s : List ℕ)
    → Agree ◌≡◌ (calculate_within rounds (c ∷ s)) (run list_stack rounds (c ∷ s) ([], []))
unfolding calculate_within run finish
calculate-cons rounds c s =
    Agree-bind
      (calc_loop-Related rounds rounds 0 (c ∷ s) _ ([], []) (omega arith)
        (init-Related (length (c ∷ s))))
      λ a b r.
        Agree-bind (flush_loop-Related (omega arith) (omega arith) rounds a b r)
          λ a' b' r'. values (pop-Holds b'.1 r'.nums).0

-- On every text, well formed or not, and for any number of rounds, the calculator on its two arrays
-- of `strlen (s)` elements ends as it does on unbounded stacks: no push finds a stack full.
pub calculate_within-unbounded :
    (rounds : ℕ) (s : List ℕ) → calculate_within rounds s ≡ run list_stack rounds s ([], [])
calculate_within-unbounded rounds [] = calculate-nil rounds
calculate_within-unbounded rounds (c ∷ s) = Agree-eq (calculate-cons rounds c s) (λ a b e. e)
