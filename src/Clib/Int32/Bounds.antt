-- ===== src/Clib/Int32/Bounds.antt =====
-- The results of the operations of `int` are numbers of `int`.
use good_command.Common.{
  ℕ, zero, suc, ◌^◌, ◌/◌, ◌≤◌, ◌≡◌, ◌&&◌, inl, inr, arith, leb, ◌==◌, value, value-inj, if-value,
  trap-ne-value,
}
use good_command.Common.Int.{ℤ, pos, negsuc, nat_abs, ◌-ℤ◌, ltb_ℤ}
use good_command.Clib.Int32.{IsInt, div}

minus-IsInt : (q : ℕ) → q ≤ 2 ^ 31 → IsInt (pos 0 -ℤ pos q)
unfolding ◌-ℤ◌
minus-IsInt zero h = omega arith
minus-IsInt (suc q) h = ground (arith, h)

nat_abs-IsInt : (a : ℤ) → IsInt a → nat_abs a ≤ 2 ^ 31
nat_abs-IsInt (pos n) h = omega arith
nat_abs-IsInt (negsuc n) h = omega arith

div_le : (a b : ℕ) → a / b ≤ a
div_le a b = omega arith

pub div-IsInt : (a b v : ℤ) → IsInt a → div a b ≡ value v → IsInt v
unfolding div
div-IsInt a b v h e =
    let q = nat_abs a / nat_abs b in
    let small : q ≤ 2 ^ 31 = omega (arith, div_le (nat_abs a) (nat_abs b), nat_abs-IsInt a h) in
    elim (if-value (nat_abs b == 0) e) [
      | inl zero_divisor ↦ absurd (trap-ne-value zero_divisor)
      | inr (_, e1) ↦ elim (if-value (ltb_ℤ a (pos 0) && ltb_ℤ (pos 0) b) e1) [
        | inl down ↦ rw (← value-inj down) (minus-IsInt q small)
        | inr (_, e2) ↦ elim (if-value (ltb_ℤ (pos 0) a && ltb_ℤ b (pos 0)) e2) [
          | inl down ↦ rw (← value-inj down) (minus-IsInt q small)
          | inr (_, e3) ↦ elim (if-value (leb (2 ^ 31) q) e3) [
            | inl large ↦ absurd (trap-ne-value large)
            | inr (fits, e4) ↦ rw (← value-inj e4) (ground (arith, fits))
          ]
        ]
      ]
    ]
