-- ===== src/DoubleStack/Stack.antt =====
-- The bounded stack of `int` in double_stack_224.c, and the interface that the calculator uses.
pub mod Refine
use good_command.Common.{ℕ, ◌+◌, ◌-◌, Bool, List, ◌==◌, if◌then◌else◌, get_or, set, replicate}
use good_command.Common.Int.{ℤ, pos}

-- `used` is the source's `it + 1`, the number of elements. `malloc` is taken to succeed.
pub record Stack : Type 0 where
  pub used : ℕ
  pub items : List ℤ
  pub max_size : ℕ

unfoldable pub stack_init : ℕ → Stack
stack_init size = record { used = 0; items = replicate size (pos 0); max_size = size }

unfoldable pub stack_is_empty : Stack → Bool
stack_is_empty stack = stack.used == 0

unfoldable pub stack_is_full : Stack → Bool
stack_is_full stack = stack.used == stack.max_size

unfoldable pub stack_top : Stack → ℤ
unfolding stack_is_empty
stack_top stack =
    if stack_is_empty stack then pos 0 else get_or stack.items (stack.used - 1) (pos 0)

-- A push on a full stack prints a message and drops the element.
unfoldable pub stack_push : Stack → ℤ → Stack
unfolding stack_is_full
stack_push stack e =
    if stack_is_full stack
    then stack
    else record stack { items = set stack.items stack.used e; used = stack.used + 1 }

-- The element, and the stack without it; the slot is cleared.
unfoldable pub stack_pop : Stack → ℤ × Stack
unfolding stack_is_empty
stack_pop stack = if stack_is_empty stack then (pos 0, stack) else (
  get_or stack.items (stack.used - 1) (pos 0),
  record stack { items = set stack.items (stack.used - 1) (pos 0); used = stack.used - 1 },
)

-- What the calculator asks of a stack.
pub record StackOps : Type 1 where
  pub Carrier : Type 0
  pub is_empty : Carrier → Bool
  pub top : Carrier → ℤ
  pub push : Carrier → ℤ → Carrier
  pub pop : Carrier → ℤ × Carrier

abbrev pub array_stack : StackOps
array_stack = record {
  Carrier = Stack;
  is_empty = stack_is_empty;
  top = stack_top;
  push = stack_push;
  pop = stack_pop;
}
