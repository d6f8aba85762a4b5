-- ===== src/DoubleStack/Machine.antt =====
-- The calculator of double_stack_224.c over any stack. A loop of the source runs on a number of
-- rounds, and gives `no_fuel` when they are used up.
pub mod Simulate
pub mod Reduce
use good_command.Common.{
  ℕ, zero, suc, ◌+◌, Bool, true, false, ◌||◌, List, [], ◌∷◌, leb, ◌==◌, if◌then◌else◌, length, drop,
  match_option, Exec, value, trap, no_fuel, ◌>>=◌,
}
use good_command.Common.Int.{ℤ, pos, ◌==ℤ◌}
use good_command.Clib.Int32
use good_command.Clib.Scan.{scan_int}
use good_command.DoubleStack.Stack.{StackOps, array_stack, stack_init}

unfoldable pub is_legal_op : ℕ → Bool
is_legal_op c = c == b'+' || (c == b'-' || (c == b'*' || (c == b'/' || (c == b'(' || c == b')'))))

-- `priority` is not initialised: for any other character its value is indeterminate.
unfoldable pub prio : ℤ → Exec ℕ
prio op =
    if (op ==ℤ pos b'*' || op ==ℤ pos b'/')
    then value 2
    else if (op ==ℤ pos b'+' || op ==ℤ pos b'-')
    then value 1
    else if op ==ℤ pos b'('
    then value 0
    else trap

unfoldable pub do_one_cal : ℤ → ℤ → ℤ → Exec ℤ
do_one_cal op a1 a2 =
    if op ==ℤ pos b'+'
    then value (Int32.add a1 a2)
    else if op ==ℤ pos b'-'
    then value (Int32.sub a2 a1)
    else if op ==ℤ pos b'*'
    then value (Int32.mul a1 a2)
    else if op ==ℤ pos b'/'
    then Int32.div a2 a1
    else value (pos 0)

module _ (S : StackOps) where
  open S use {Carrier, is_empty, top, push, pop}

  -- The operator stack, then the number stack.
  abbrev pub Stacks : Type 0
  Stacks = Carrier × Carrier

  unfoldable pub pop_and_cal : Stacks → Exec Stacks
  pop_and_cal (opst, npst) =
      let this_op = pop opst in
      let a1 = pop npst in
      let a2 = pop a1.1 in do_one_cal this_op.0 a1.0 a2.0 >>= λ r. value (this_op.1, push a2.1 r)

  -- The loop at `)`, down to the open parenthesis.
  unfoldable pub close_loop : ℕ → Stacks → Exec Stacks
  close_loop zero st = no_fuel
  close_loop (suc rounds) st =
      if top st.0 ==ℤ pos b'(' then value st else (pop_and_cal st >>= close_loop rounds)

  -- The loop at an operator, over what binds at least as tightly.
  unfoldable pub reduce_loop : ℕ → ℕ → Stacks → Exec Stacks
  reduce_loop zero c st = no_fuel
  reduce_loop (suc rounds) c st = do
    p ← prio (pos c)
    q ← prio (top st.0)
    if leb p q
        then (pop_and_cal st >>= λ r. if is_empty r.0 then value r else reduce_loop rounds c r)
        else value st

  -- The loop at the end of the text.
  unfoldable pub flush_loop : ℕ → Stacks → Exec Stacks
  flush_loop zero st = no_fuel
  flush_loop (suc rounds) st =
      if is_empty st.0 then value st else (pop_and_cal st >>= flush_loop rounds)

  unfoldable pub on_operator : ℕ → ℕ → Stacks → Exec Stacks
  on_operator rounds c st =
      if is_empty st.0
      then value (push st.0 (pos c), st.1)
      else if c == b'('
      then value (push st.0 (pos c), st.1)
      else if c == b')'
      then (close_loop rounds st >>= λ r. value ((pop r.0).1, r.1))
      else (reduce_loop rounds c st >>= λ r. value (push r.0 (pos c), r.1))

  -- The main loop at the text that is left. A byte that starts no token is read again for ever.
  unfoldable pub calc_loop : ℕ → ℕ → List ℕ → Stacks → Exec Stacks
  calc_loop rounds zero s st = no_fuel
  calc_loop rounds (suc fuel) [] st = value st
  calc_loop rounds (suc fuel) (c ∷ s) st =
      let operator = on_operator rounds c st >>= calc_loop rounds fuel s in
      let blank = calc_loop rounds fuel s st in
      let stuck = calc_loop rounds fuel (c ∷ s) st in
      let number =
        λ (found : ℤ × ℕ). calc_loop rounds fuel (drop found.1 (c ∷ s)) (st.0, push st.1 found.0) in
      if is_legal_op c
      then operator
      else if c == b' '
      then blank
      else match_option (scan_int (c ∷ s)) stuck number

  unfoldable pub finish : ℕ → Stacks → Exec ℤ
  finish rounds st = flush_loop rounds st >>= λ r. value (pop r.1).0

  -- `calculate` with the rounds that each loop is given.
  unfoldable pub run : ℕ → List ℕ → Stacks → Exec ℤ
  run rounds s st = calc_loop rounds rounds s st >>= finish rounds

unfoldable pub calculate_within : ℕ → List ℕ → Exec ℤ
calculate_within rounds s = run array_stack rounds s (stack_init (length s), stack_init (length s))

-- The main loop reads a byte in each round but the last, and at most two operators wait above the
-- innermost open parenthesis.
unfoldable pub calculate : List ℕ → Exec ℤ
calculate s = calculate_within (length s + 3) s
