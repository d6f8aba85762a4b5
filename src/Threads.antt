-- ===== src/Threads.antt =====
-- source/src/getrlimit/threads.c: five threads that each print a line, as steps of the process. Any
-- thread may take the next step, and `pthread_create` may fail.
pub mod Laws
mod Tests
use good_command.Common.{ℕ, suc, ◌<◌, ◌≤◌, ◌≡◌, ◌≢◌, Bool, true, false, List, [], ◌∷◌, ◌++◌}
use good_command.Common.Int.{ℤ, pos}

abbrev pub num_threads : ℕ
num_threads = 5

-- The lines that are printed.
pub data Message : Type 0 where
  creating : ℕ → Message
  error : ℤ → Message
  hello : ℕ → Message

-- Where `main` is: at the test of its loop, behind its first line, behind the line on the error, or
-- past `exit` or `pthread_exit`.
pub data Place : Type 0 where
  at_test : Place
  at_create : Place
  at_exit : Place
  exited : Place
  left : Place

-- `running` are the threads that have printed nothing yet; in `printed` the last line comes first.
pub record Process : Type 0 where
  pub t : ℕ
  pub place : Place
  pub running : List ℕ
  pub printed : List Message

unfoldable pub is_exited : Place → Bool
is_exited at_test = false
is_exited at_create = false
is_exited at_exit = false
is_exited exited = true
is_exited left = false

abbrev pub process : ℕ → Place → List ℕ → List Message → Process
process t place running printed = record {
  t = t;
  place = place;
  running = running;
  printed = printed;
}

-- `exit` ends all threads, and `pthread_exit` the one of `main` only.
pub data Step : Process → Process → Type 0 where
  announces :
      {t : ℕ} {r : List ℕ} {p : List Message}
      → t < num_threads
      → Step (process t at_test r p) (process t at_create r (creating t ∷ p))
  creates :
      {t : ℕ} {r : List ℕ} {p : List Message}
      → Step (process t at_create r p) (process (suc t) at_test (t ∷ r) p)
  refuses :
      {t : ℕ} {r : List ℕ} {p : List Message} (rc : ℤ)
      → rc ≢ pos 0
      → Step (process t at_create r p) (process t at_exit r (error rc ∷ p))
  exits :
      {t : ℕ} {r : List ℕ} {p : List Message} → Step (process t at_exit r p) (process t exited r p)
  leaves :
      {t : ℕ} {r : List ℕ} {p : List Message}
      → num_threads ≤ t
      → Step (process t at_test r p) (process t left r p)
  greets :
      {t : ℕ} {place : Place} {p : List Message} (r r' : List ℕ) (tid : ℕ)
      → is_exited place ≡ false
      → Step (process t place (r ++ tid ∷ r') p) (process t place (r ++ r') (hello tid ∷ p))

abbrev pub start : Process
start = process 0 at_test [] []

-- What the process can come to.
pub data Reach : Process → Type 0 where
  begins : Reach start
  goes_on : {s s' : Process} → Reach s → Step s s' → Reach s'
