-- ===== src/Rlimit.antt =====
-- source/src/getrlimit/getrlimit.c: the limit of the processor time of a process is shown and set.
pub mod GetSet
pub mod Laws
mod Tests
use good_command.Common.{
  ℕ, ◌-◌, ◌%◌, ◌^◌, Option, none, some, List, [], ◌∷◌, ltb, if◌then◌else◌, match_option,
}
use good_command.Common.Int.{ℤ, pos, negsuc}
use good_command.Clib.Bytes.{codes}
use good_command.Clib.Int64
use good_command.Clib.Scan.{scan_int}

-- `atoi`, for a text that does not start with a number too.
unfoldable pub atoi : List ℕ → ℤ
atoi s = match_option (scan_int s) (pos 0) (λ found. found.0)

-- A conversion from `int` to `rlim_t`, 64 bits without a sign.
unfoldable pub to_rlim : ℤ → ℕ
unfolding Int64.to_bits
to_rlim a = Int64.to_bits a

-- A conversion of `rlim_t` to `long long`.
unfoldable pub to_long_long : ℕ → ℤ
unfolding Int64.of_bits
to_long_long r = Int64.of_bits r

pub record Rlimit : Type 0 where
  pub rlim_cur : ℕ
  pub rlim_max : ℕ

-- How `main` ends: with the text on its use, by `errExit` with a label, or well.
pub data Ending : Type 0 where
  usage : Ending
  failed : List ℕ → Ending
  shown : Ending

unfoldable pub exit_status : Ending → ℕ
exit_status usage = 1
exit_status (failed msg) = 1
exit_status shown = 0

-- The pairs of limits that are printed, the soft one first.
pub record End (World : Type 0) : Type 0 where
  pub ending : Ending
  pub printed : List (ℤ × ℤ)
  pub system : World

unfoldable pub new_limits : List ℕ → List ℕ → Rlimit
unfolding atoi to_rlim
new_limits soft hard = record { rlim_cur = to_rlim (atoi soft); rlim_max = to_rlim (atoi hard) }

unfoldable pub line : Rlimit → ℤ × ℤ
unfolding to_long_long
line old = (to_long_long old.rlim_cur, to_long_long old.rlim_max)

-- `prlimit` for RLIMIT_CPU: by the process and the new limits, if any, the previous ones; `none` is
-- the result -1.
abbrev pub Prlimit : Type 0 → Type 0
Prlimit World = ℤ → Option Rlimit → World → Option Rlimit × World

module _ {World : Type 0} (prlimit : Prlimit World) where
  -- The two calls, and what they print.
  unfoldable pub show_and_set : ℤ → Option Rlimit → World → End World
  unfolding line
  show_and_set pid newp w =
      let first = prlimit pid newp w in
      let second = prlimit pid none first.1 in
      match_option first.0
        (record { ending = failed (codes "prlimit-1"); printed = []; system = first.1 })
        λ old.
          match_option second.0
            (record {
              ending = failed (codes "prlimit-2");
              printed = line old ∷ [];
              system = second.1;
            })
            λ now. record { ending = shown; printed = line old ∷ line now ∷ []; system = second.1 }

  -- By the name of the program and its arguments.
  unfoldable pub main : List (List ℕ) → World → End World
  unfolding show_and_set new_limits
  main (program ∷ pid ∷ []) w = show_and_set (atoi pid) none w
  main (program ∷ pid ∷ soft ∷ hard ∷ []) w =
      show_and_set (atoi pid) (some (new_limits soft hard)) w
  main argv w = record { ending = usage; printed = []; system = w }
