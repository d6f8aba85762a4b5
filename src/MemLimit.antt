-- ===== src/MemLimit.antt =====
-- source/src/cgroup_memory/mem-limit.c: blocks of 1 MB are taken until there are 50, or no more.
pub mod Laws
mod Tests
use good_command.Common.{ℕ, zero, suc, ◌+◌, Bool, List, [], ◌∷◌, if◌then◌else◌}

-- The lines that `main` prints, with their numbers.
pub data Line : Type 0 where
  starting : Line
  malloc_failed : ℕ → Line
  allocated : ℕ → ℕ → Line
  done : Line

-- `main` returns 0, or sleeps in a loop that has no end, or the system kills the process.
pub data Fate : Type 0 where
  returns : Fate
  sleeps : Fate
  killed : Fate

pub record End (World : Type 0) : Type 0 where
  pub fate : Fate
  pub printed : List Line
  pub system : World

-- `malloc` of 1 MB, false for NULL, and `memset` of the block, false when the process is killed while the
-- pages of the block are touched.
module _ {World : Type 0} (malloc touch : World → Bool × World) where
  -- The rounds that are left, from `i` on, and what comes behind the loop.
  unfoldable pub consume : ℕ → ℕ → World → End World
  consume zero i w = record { fate = sleeps; printed = done ∷ []; system = w }
  consume (suc left) i w =
      let got = malloc w in
      let touched = touch got.1 in
      let rest = consume left (i + 1) touched.1 in
      if got.0
      then (if touched.0
          then record {
            fate = rest.fate;
            printed = allocated i (i + 1) ∷ rest.printed;
            system = rest.system;
          }
          else record { fate = killed; printed = []; system = touched.1 })
      else record { fate = returns; printed = malloc_failed i ∷ []; system = got.1 }

  unfoldable pub main : World → End World
  unfolding consume
  main w =
      let e = consume 50 0 w in
      record { fate = e.fate; printed = starting ∷ e.printed; system = e.system }
