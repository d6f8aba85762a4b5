-- ===== src/Threads/Tests.antt =====
-- A run of threads.c in which thread 1 is the first to greet, and witnesses.
use good_command.Common.{ℕ, suc, ◌≤◌, ◌<◌, false, ◌≡◌, ◌⊎◌, refl, List, [], ◌∷◌, arith}
use good_command.Common.Int.{pos}
use good_command.Threads.{
  num_threads, Message, creating, error, hello, Place, is_exited, at_test, at_exit, left, Process,
  process, Step, announces, creates, refuses, leaves, greets,
}
use good_command.Threads.Laws.{below, announced, greeted, greeted-le-announced}
use good_command.Threads.Laws.Ends.{Run, no_step, one_more, Run-Reach, Ended, Run-Ended}

-- One more thread.
made :
    {n t : ℕ} {r : List ℕ} {p : List Message}
    → t < num_threads
    → Run n (process t at_test r p)
    → Run (suc (suc n)) (process (suc t) at_test (t ∷ r) (creating t ∷ p))
made lt run = one_more (one_more run (announces lt)) creates

-- The first of the threads that are still to greet.
greeted_first :
    {n : ℕ} {place : Place} {tid t : ℕ} {r : List ℕ} {p : List Message}
    → is_exited place ≡ false
    → Run n (process t place (tid ∷ r) p)
    → Run (suc n) (process t place r (hello tid ∷ p))
greeted_first {tid = tid} {r = r} on run = one_more run (greets [] r tid on)

abbrev two_lines : List Message
two_lines = hello 1 ∷ creating 1 ∷ creating 0 ∷ []

two_threads : Run 5 (process 2 at_test (0 ∷ []) two_lines)
unfolding is_exited
two_threads = greeted_first refl (made (omega arith) (made (omega arith) no_step))

greeted-le-announced_example :
    (greeted 1 two_lines ≤ announced 1 two_lines) × (announced 1 two_lines ≤ below 1 5)
greeted-le-announced_example =
    greeted-le-announced (process 2 at_test (0 ∷ []) two_lines) 1 (Run-Reach 5 _ two_threads)

-- Thread 0 is refused.
refused : Run 2 (process 0 at_exit [] (error (pos 11) ∷ creating 0 ∷ []))
refused = one_more (one_more no_step (announces (omega arith))) (refuses (pos 11) (ground arith))

abbrev all_lines : List Message
all_lines = hello 0 ∷ hello 2 ∷ hello 3 ∷ hello 4 ∷ creating 4 ∷ creating 3 ∷ creating 2 ∷ two_lines

all_threads : Run 16 (process 5 left [] all_lines)
unfolding is_exited
all_threads =
    let five = made (omega arith) (made (omega arith) (made (omega arith) two_threads)) in
    greeted_first refl (
      greeted_first refl
        (greeted_first refl (greeted_first refl (one_more five (leaves (omega arith))))))

Run-Ended_example :
    (16 ≤ 16)
    × (Ended (process 5 left [] all_lines)
        ⊎ ((s' : Process) × Step (process 5 left [] all_lines) s'))
Run-Ended_example = Run-Ended 16 (process 5 left [] all_lines) all_threads
