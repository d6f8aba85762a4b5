-- ===== src/Postfix/Translate.antt =====
-- `mtob` of 224.c: the operators wait on the stack, and the postfix text grows in `bstr`. A loop of
-- the source runs on a number of rounds, and gives `no_fuel` when they are used up.
pub mod Lists
pub mod Waiting
pub mod Reading
pub mod Bounded
pub mod Simulate
use good_command.Common.{
  ℕ, zero, suc, ◌+◌, ◌*◌, Bool, true, false, ◌||◌, List, [], ◌∷◌, ◌++◌, leb, ◌==◌, if◌then◌else◌,
  length, drop, replicate, get_or, match_option, Exec, value, trap, no_fuel, ◌>>=◌,
}
use good_command.Common.Int.{ℤ}
use good_command.Clib.Scan.{scan_int}
use good_command.Clib.Print.{print_int}
use good_command.Clib.Bytes.{store, strcpy, c_string}
use good_command.Postfix.Stack.{Stack, stack_init, stack_top, stack_push, stack_pop, is_empty}

unfoldable pub is_legal_op : ℕ → Bool
is_legal_op c = c == b'+' || (c == b'-' || (c == b'*' || (c == b'/' || (c == b'(' || c == b')'))))

-- `priority` is not initialised: for any other character its value is indeterminate.
unfoldable pub prio : ℕ → Exec ℕ
prio op =
    if (op == b'*' || op == b'/')
    then value 2
    else if (op == b'+' || op == b'-')
    then value 1
    else if op == b'('
    then value 0
    else trap

-- What the loops do with the stack and the text together: `move` pops an operator and writes it at
-- an operator, `flush_one` at the end of the text.
pub record Sink : Type 1 where
  pub Carrier : Type 0
  pub has_none : Carrier → Bool
  pub top : Carrier → Exec ℕ
  pub push : ℕ → Carrier → Exec Carrier
  pub move : Carrier → Exec Carrier
  pub discard : Carrier → Exec Carrier
  pub number : ℤ → Carrier → Exec Carrier
  pub flush_one : Carrier → Exec Carrier

-- The stack, `bstr` and `bi`.
pub record Translation : Type 0 where
  pub stack : Stack
  pub bstr : List ℕ
  pub bi : ℕ

unfoldable pub push_op : ℕ → Translation → Exec Translation
push_op c t = stack_push 0 (c ∷ []) t.stack >>= λ stack. value (record t { stack = stack })

-- An operator and a blank, each of one byte.
unfoldable pub move_op : Translation → Exec Translation
move_op t = do
  popped ← stack_pop t.stack
  copied ← strcpy t.bstr t.bi popped.0.num_op
  bstr ← store copied (t.bi + 1) b' '
  value (record { stack = popped.1; bstr = bstr; bi = t.bi + 2 })

unfoldable pub flush_op : Translation → Exec Translation
flush_op t = do
  popped ← stack_pop t.stack
  copied ← strcpy t.bstr t.bi popped.0.num_op
  bstr ← store copied (t.bi + length popped.0.num_op) b' '
  value (record { stack = popped.1; bstr = bstr; bi = t.bi + length popped.0.num_op + 1 })

unfoldable pub print_number : ℤ → Translation → Exec Translation
print_number v t =
    let text = print_int v ++ b' ' ∷ [] in
    strcpy t.bstr t.bi text >>= λ bstr. value (record t { bstr = bstr; bi = t.bi + length text })

abbrev pub array_sink : Sink
array_sink = record {
  Carrier = Translation;
  has_none = λ t. is_empty t.stack;
  top = λ t. stack_top t.stack >>= λ node. value (get_or node.num_op 0 0);
  push = push_op;
  move = move_op;
  discard = λ t. stack_pop t.stack >>= λ popped. value (record t { stack = popped.1 });
  number = print_number;
  flush_one = flush_op;
}

module _ (S : Sink) where
  open S use {Carrier, has_none, top, push, move, discard, number, flush_one}

  -- The loop at `)`, down to the open parenthesis.
  unfoldable pub close_loop : ℕ → Carrier → Exec Carrier
  close_loop zero st = no_fuel
  close_loop (suc rounds) st = do
    c ← top st
    if c == b'(' then value st else (move st >>= close_loop rounds)

  -- The loop at an operator, over what binds at least as tightly.
  unfoldable pub reduce_loop : ℕ → ℕ → Carrier → Exec Carrier
  reduce_loop zero c st = no_fuel
  reduce_loop (suc rounds) c st = do
    p ← prio c
    t ← top st
    q ← prio t
    if leb p q
        then (move st >>= λ r. if has_none r then value r else reduce_loop rounds c r)
        else value st

  -- The loop at the end of the text.
  unfoldable pub flush_loop : ℕ → Carrier → Exec Carrier
  flush_loop zero st = no_fuel
  flush_loop (suc rounds) st =
      if has_none st then value st else (flush_one st >>= flush_loop rounds)

  unfoldable pub on_operator : ℕ → ℕ → Carrier → Exec Carrier
  on_operator rounds c st =
      if has_none st
      then push c st
      else if c == b'('
      then push c st
      else if c == b')'
      then (close_loop rounds st >>= discard)
      else (reduce_loop rounds c st >>= push c)

  -- The main loop at the text that is left. A byte that starts no token is read again for ever.
  unfoldable pub convert_loop : ℕ → ℕ → List ℕ → Carrier → Exec Carrier
  convert_loop rounds zero s st = no_fuel
  convert_loop rounds (suc fuel) [] st = value st
  convert_loop rounds (suc fuel) (c ∷ s) st =
      let operator = on_operator rounds c st >>= convert_loop rounds fuel s in
      let blank = convert_loop rounds fuel s st in
      let stuck = convert_loop rounds fuel (c ∷ s) st in
      let read =
        λ (found : ℤ × ℕ). number found.0 st >>= convert_loop rounds fuel (drop found.1 (c ∷ s)) in
      if is_legal_op c
      then operator
      else if c == b' '
      then blank
      else match_option (scan_int (c ∷ s)) stuck read

  unfoldable pub convert : ℕ → List ℕ → Carrier → Exec Carrier
  convert rounds s st = convert_loop rounds rounds s st >>= flush_loop rounds

-- `bstr` has two bytes for each byte of the text and its NUL.
unfoldable pub start : List ℕ → Stack → Translation
start s stack = record {
  stack = stack_init (length s) stack;
  bstr = replicate ((length s + 1) * 2) 0;
  bi = 0;
}

-- The text in `bstr`, and the stack that is left.
unfoldable pub result : Translation → Exec (List ℕ × Stack)
result t = match_option (c_string t.bstr) trap (λ text. value (text, t.stack))

-- `mtob` with the rounds that each loop is given.
unfoldable pub mtob_within : ℕ → List ℕ → Stack → Exec (List ℕ × Stack)
mtob_within rounds [] stack = result (start [] stack)
mtob_within rounds (c ∷ s) stack =
    convert array_sink rounds (c ∷ s) (start (c ∷ s) stack) >>= result

-- Each loop takes at most one round for each byte and the last one.
unfoldable pub mtob : List ℕ → Stack → Exec (List ℕ × Stack)
mtob s stack = mtob_within (length s + 3) s stack
