-- ===== src/DoubleStack.antt =====
-- source/src/leetcode/double_stack_224.c: a calculator for infix arithmetic on a stack of numbers
-- and a stack of operators.
pub mod Stack
pub mod Machine
pub mod Pending
pub mod Reading
pub mod Correct
pub mod Hang
pub mod Malformed
pub mod Main
mod Tests
