-- ===== src/Rlimit/Laws.antt =====
-- What `main` of getrlimit.c shows and changes, for a `prlimit` that keeps to its manual page.
use good_command.Common.{ℕ, ◌≡◌, ◌⊎◌, Option, none, some, [], ◌∷◌, match_option, ◌-◌, ◌^◌}
use good_command.Common.Int.{ℤ, pos, negsuc}
use good_command.Clib.Bytes.{codes}
use good_command.Rlimit
use good_command.Rlimit.{Rlimit, failed, usage, shown, line, Prlimit, End}

-- A number in 64 bits without a sign: a negative one counts down from 2 ^ 64.
abbrev pub unsigned : ℤ → ℕ
unsigned (pos n) = n
unsigned (negsuc n) = 2 ^ 64 - 1 - n

abbrev pub limits_for : ℤ → ℤ → Rlimit
limits_for soft hard = record { rlim_cur = unsigned soft; rlim_max = unsigned hard }

module _ {World : Type 0} (prlimit : Prlimit World) (limits : World → ℤ → Option Rlimit) where
  -- The manual page: a call that fails changes nothing, one that succeeds returns the limits of the
  -- process, and leaves the new ones if there are any.
  pub record IsPrlimit : Type 0 where
    pub fails :
        (pid : ℤ) (newp : Option Rlimit) (w : World)
        → (prlimit pid newp w).0 ≡ none
        → limits (prlimit pid newp w).1 pid ≡ limits w pid
    pub previous :
        (pid : ℤ) (newp : Option Rlimit) (w : World) (old : Rlimit)
        → (prlimit pid newp w).0 ≡ some old
        → limits w pid ≡ some old
    pub sets :
        (pid : ℤ) (newp : Option Rlimit) (w : World) (old : Rlimit)
        → (prlimit pid newp w).0 ≡ some old
        → limits (prlimit pid newp w).1 pid ≡ match_option newp (some old) some

-- How two calls for the process `pid` end, that leave the limits `left` in place of `old` when the first
-- succeeds, and show them as `seen`.
abbrev pub Shows :
    {World : Type 0}
    → (World → ℤ → Option Rlimit)
    → ℤ
    → (Rlimit → Rlimit)
    → (Rlimit → ℤ × ℤ)
    → World
    → End World
    → Type 0
Shows limits pid left seen w e =
    ((e.ending ≡ failed (codes "prlimit-1"))
      × (e.printed ≡ [])
      × (limits e.system pid ≡ limits w pid))
    ⊎ ((old : Rlimit) × (limits w pid ≡ some old)
        × (limits e.system pid ≡ some (left old))
        × (((e.ending ≡ failed (codes "prlimit-2")) × (e.printed ≡ line old ∷ []))
            ⊎ ((e.ending ≡ shown) × (e.printed ≡ line old ∷ seen old ∷ []))))

abbrev left_by : Option Rlimit → Rlimit → Rlimit
left_by newp old = match_option newp old (λ new. new)

-- By the number of the arguments: the limits are shown, or set, or nothing is done.
abbrev pub ShowsLimits :
    {World : Type 0} → (World → ℤ → Option Rlimit) → ℤ → World → End World → Type 0
ShowsLimits limits pid w e = Shows limits pid (λ old. old) line w e

abbrev pub SetsLimits :
    {World : Type 0}
    → (World → ℤ → Option Rlimit)
    → (pid soft hard : ℤ) → World
    → End World
    → Type 0
SetsLimits limits pid soft hard w e =
    Shows limits pid (λ old. limits_for soft hard) (λ old. (soft, hard)) w e

abbrev pub SaysUsage : {World : Type 0} → World → End World → Type 0
SaysUsage w e = (e.ending ≡ usage) × (e.printed ≡ []) × (e.system ≡ w)
