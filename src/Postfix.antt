-- ===== src/Postfix.antt =====
-- The calculator of leetcode/224.c, which writes an expression in postfix order and then computes
-- that text on the same stack.
pub mod Stack
pub mod Order
pub mod Translate
pub mod Evaluate
pub mod Sample
pub mod Calculate
pub mod Correct
pub mod Runs
mod Tests
