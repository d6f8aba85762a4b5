-- ===== src/Shared/Laws.antt =====
-- For which characters lowcase does what its message says.
use good_command.Common.{ℕ, ◌+◌, ◌≤◌, ◌≡◌, ◌↔◌, ◌&&◌, arith, leb, if◌then◌else◌}
use good_command.Shared.{low}

-- The lower case of ASCII.
abbrev lower : ℕ → ℕ
lower a = if leb b'A' a && leb a b'Z' then a + 32 else a

-- Just the characters from A on are turned as they should be.
low-lower_iff : (a : ℕ) → (low a ≡ lower a) ↔ (b'A' ≤ a)
unfolding low
low-lower_iff a = (λ h. ground arith, λ h. ground arith)
