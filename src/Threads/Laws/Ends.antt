-- ===== src/Threads/Laws/Ends.antt =====
-- Every run of threads.c ends, and how.
use good_command.Common.{
  ℕ, zero, suc, ◌+◌, ◌-◌, ◌*◌, ◌≤◌, ◌≡◌, refl, ◌⊎◌, inl, inr, List, [], ◌∷◌, ◌++◌, arith, ltb,
  Bool-cases, length,
}
use good_command.Threads.{
  num_threads, Message, Place, at_test, at_create, at_exit, exited, left, Process, process,
  is_exited, Step, announces, creates, refuses, exits, leaves, greets, start, Reach, begins,
  goes_on,
}
use good_command.Threads.Laws.{below, announced, greeted, Inv, Reach-Inv, is_open, greeted_complete}

-- A run of so many steps from the start.
pub data Run : ℕ → Process → Type 0 where
  no_step : Run 0 start
  one_more : {n : ℕ} {s s' : Process} → Run n s → Step s s' → Run (suc n) s'

pub Run-Reach : (n : ℕ) (s : Process) → Run n s → Reach s
Run-Reach zero s no_step = begins
Run-Reach (suc n) s (one_more run step) = goes_on (Run-Reach n _ run) step

-- How many steps are left at most: for a thread its line, its creation and its greeting.
weight_at : Place → ℕ → ℕ
weight_at at_test t = 3 * (num_threads - t) + 1
weight_at at_create t = 3 * (num_threads - t)
weight_at at_exit t = 1
weight_at exited t = 0
weight_at left t = 0

weight : Process → ℕ
unfolding weight_at
weight s = weight_at s.place s.t + length s.running

length-append_cons : (r r' : List ℕ) (t : ℕ) → length (r ++ t ∷ r') ≡ suc (length (r ++ r'))
length-append_cons [] r' t = refl
length-append_cons (u ∷ r) r' t = omega (arith, length-append_cons r r' t)

Step-weight : (s s' : Process) → Inv s → Step s s' → weight s' + 1 ≤ weight s
unfolding weight is_open
Step-weight s s' inv (announces lt) = omega arith
Step-weight s s' inv creates = omega (arith, inv.bounded)
Step-weight s s' inv (refuses rc nonzero) = omega (arith, inv.bounded)
Step-weight s s' inv exits = omega arith
Step-weight s s' inv (leaves le) = omega arith
Step-weight s s' inv (greets r r' tid on) = omega (arith, length-append_cons r r' tid)

Run-weight : (n : ℕ) (s : Process) → Run n s → n + weight s ≤ 16
unfolding weight
Run-weight zero s no_step = omega arith
Run-weight (suc n) s (one_more {s = before} run step) = omega (
  arith,
  Run-weight n before run,
  Step-weight before s (Reach-Inv before (Run-Reach n before run)) step,
)

-- The process has exited, or `main` has left and every thread has greeted.
abbrev pub Ended : Process → Type 0
Ended s =
    (s.place ≡ exited)
    ⊎ ((s.place ≡ left)
        × (s.running ≡ [])
        × ((i : ℕ)
            → (greeted i s.printed ≡ below i num_threads)
              × (announced i s.printed ≡ below i num_threads)))

progress :
    (t : ℕ) (place : Place) (r : List ℕ) (p : List Message)
    → Reach (process t place r p)
    → Ended (process t place r p) ⊎ ((s' : Process) × Step (process t place r p) s')
unfolding is_exited
progress t at_test r p reach = elim (Bool-cases (ltb t num_threads)) [
  | inl more ↦ inr (_, announces (ground (arith, more)))
  | inr over ↦ inr (_, leaves (ground (arith, over)))
]
progress t at_create r p reach = inr (_, creates)
progress t at_exit r p reach = inr (_, exits)
progress t exited r p reach = inl (inl refl)
progress t left [] p reach =
    inl (inr (refl, refl, λ i. greeted_complete (process t left [] p) i reach refl refl))
progress t left (tid ∷ r) p reach = inr (_, greets [] r tid refl)

-- However the steps are ordered, and whether `pthread_create` fails or not: there are at most 16 of
-- them, and behind any number of them there is a further one, or the process has exited, or `main` has
-- left, no thread is still to greet, and each of the numbers below 5 was announced once and has greeted
-- once, and no other.
pub Run-Ended :
    (n : ℕ) (s : Process) → Run n s → (n ≤ 16) × (Ended s ⊎ ((s' : Process) × Step s s'))
unfolding weight
Run-Ended n s run = (
  omega (arith, Run-weight n s run),
  progress s.t s.place s.running s.printed (Run-Reach n s run),
)
