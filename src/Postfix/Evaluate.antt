-- ===== src/Postfix/Evaluate.antt =====
-- `cal_bstr` of 224.c: the numbers of a postfix text wait on the stack, each as its text.
pub mod Bounded
pub mod Tokens
pub mod Order
use good_command.Common.{
  ℕ, zero, suc, ◌+◌, List, [], ◌∷◌, ◌==◌, if◌then◌else◌, length, drop, match_option, Exec, value,
  trap, no_fuel, ◌>>=◌,
}
use good_command.Common.Int.{ℤ, pos}
use good_command.Clib.Int32
use good_command.Clib.Scan.{scan_int}
use good_command.Clib.Print.{print_int}
use good_command.Postfix.Stack.{Stack, stack_init, stack_push, stack_pop}
use good_command.Postfix.Translate.{is_legal_op}

-- `result` of the two numbers, of which `a1` was on top.
unfoldable pub compute : ℕ → ℤ → ℤ → Exec ℤ
compute op a1 a2 =
    if op == b'+'
    then value (Int32.add a1 a2)
    else if op == b'-'
    then value (Int32.sub a2 a1)
    else if op == b'*'
    then value (Int32.mul a1 a2)
    else if op == b'/'
    then Int32.div a2 a1
    else value (pos 0)

-- What the loop does with its stack.
pub record Numbers : Type 1 where
  pub Carrier : Type 0
  pub push : ℤ → Carrier → Exec Carrier
  pub pop : Carrier → Exec (ℤ × Carrier)

unfoldable pub push_number : ℤ → Stack → Exec Stack
push_number v st = stack_push 1 (print_int v) st

-- A `num_op` that is no number leaves the variable of the source as it was, not initialised.
unfoldable pub pop_number : Stack → Exec (ℤ × Stack)
pop_number st = do
  popped ← stack_pop st
  match_option (scan_int popped.0.num_op) trap (λ found. value (found.0, popped.1))

abbrev pub array_numbers : Numbers
array_numbers = record { Carrier = Stack; push = push_number; pop = pop_number }

module _ (S : Numbers) where
  open S use {Carrier, push, pop}

  unfoldable pub apply_operator : ℕ → Carrier → Exec Carrier
  apply_operator c st = do t1 ← pop st; t2 ← pop t1.1; r ← compute c t1.0 t2.0; push r t2.1

  -- The loop at the text that is left. A byte that starts no token is read again for ever.
  unfoldable pub cal_loop : ℕ → List ℕ → Carrier → Exec Carrier
  cal_loop zero s st = no_fuel
  cal_loop (suc fuel) [] st = value st
  cal_loop (suc fuel) (c ∷ s) st =
      let operator = apply_operator c st >>= cal_loop fuel s in
      let blank = cal_loop fuel s st in
      let stuck = cal_loop fuel (c ∷ s) st in
      let read = λ (found : ℤ × ℕ). push found.0 st >>= cal_loop fuel (drop found.1 (c ∷ s)) in
      if is_legal_op c
      then operator
      else if c == b' '
      then blank
      else match_option (scan_int (c ∷ s)) stuck read

  unfoldable pub evaluate : ℕ → List ℕ → Carrier → Exec (ℤ × Carrier)
  evaluate fuel s st = cal_loop fuel s st >>= pop

unfoldable pub cal_bstr_within : ℕ → List ℕ → Stack → Exec (ℤ × Stack)
cal_bstr_within fuel [] st = value (pos 0, stack_init 0 st)
cal_bstr_within fuel (c ∷ s) st =
    evaluate array_numbers fuel (c ∷ s) (stack_init (length (c ∷ s)) st)

-- Each round but the last reads a byte.
unfoldable pub cal_bstr : List ℕ → Stack → Exec (ℤ × Stack)
cal_bstr s st = cal_bstr_within (length s + 1) s st
