-- ===== src/Threads/Laws.antt =====
-- What threads.c prints, in any order of its steps.
pub mod Ends
use good_command.Common.{
  ℕ, suc, ◌+◌, ◌≤◌, ◌≡◌, refl, Bool, true, false, List, [], ◌∷◌, ◌++◌, arith, ltb, ◌==◌,
  if◌then◌else◌,
}
use good_command.Threads.{
  num_threads, Message, creating, error, hello, Place, at_test, at_create, at_exit, exited, left,
  Process, Step, announces, creates, refuses, exits, leaves, greets, Reach, begins, goes_on,
}

-- 1 when the test holds, else 0.
abbrev one_if : Bool → ℕ
one_if b = if b then 1 else 0

abbrev pub below : ℕ → ℕ → ℕ
below i n = one_if (ltb i n)

-- How often thread `i` is announced, how often it has greeted, and how often it is in a list.
unfoldable pub announced : ℕ → List Message → ℕ
announced i [] = 0
announced i (creating t ∷ p) = one_if (i == t) + announced i p
announced i (error rc ∷ p) = announced i p
announced i (hello t ∷ p) = announced i p

unfoldable pub greeted : ℕ → List Message → ℕ
greeted i [] = 0
greeted i (creating t ∷ p) = greeted i p
greeted i (error rc ∷ p) = greeted i p
greeted i (hello t ∷ p) = one_if (i == t) + greeted i p

unfoldable count : ℕ → List ℕ → ℕ
count i [] = 0
count i (t ∷ r) = one_if (i == t) + count i r

count-append :
    (i t : ℕ) (r r' : List ℕ) → count i (r ++ t ∷ r') ≡ one_if (i == t) + count i (r ++ r')
unfolding count
count-append i t [] r' = refl
count-append i t (u ∷ r) r' = omega (arith, count-append i t r r')

-- Thread `t` is announced and not made.
unfoldable is_open : Place → Bool
is_open at_test = false
is_open at_create = true
is_open at_exit = true
is_open exited = true
is_open left = false

unfoldable is_left : Place → Bool
is_left at_test = false
is_left at_create = false
is_left at_exit = false
is_left exited = false
is_left left = true

record Inv (s : Process) : Type 0 where
  made : (i : ℕ) → greeted i s.printed + count i s.running ≡ below i s.t
  named :
      (i : ℕ)
      → announced i s.printed ≡ below i s.t + (if is_open s.place then one_if (i == s.t) else 0)
  bounded : s.t + one_if (is_open s.place) ≤ num_threads
  complete : is_left s.place ≡ true → s.t ≡ num_threads

next_below : (i t : ℕ) → below i (suc t) ≡ one_if (i == t) + below i t
next_below i t = ground arith

Step-Inv : (s s' : Process) → Inv s → Step s s' → Inv s'
unfolding announced greeted count is_open is_left
Step-Inv s s' inv (announces lt) = record {
  made = inv.made;
  named = λ i. omega (arith, inv.named i);
  bounded = omega arith;
  complete = λ h. absurd (omega arith);
}
Step-Inv s s' inv creates = record {
  made = λ i. omega (arith, inv.made i, next_below i _);
  named = λ i. omega (arith, inv.named i, next_below i _);
  bounded = omega (arith, inv.bounded);
  complete = λ h. cc;
}
Step-Inv s s' inv (refuses rc nonzero) = record {
  made = inv.made;
  named = inv.named;
  bounded = inv.bounded;
  complete = λ h. cc;
}
Step-Inv s s' inv exits = record {
  made = inv.made;
  named = inv.named;
  bounded = inv.bounded;
  complete = λ h. cc;
}
Step-Inv s s' inv (leaves le) = record {
  made = inv.made;
  named = inv.named;
  bounded = inv.bounded;
  complete = λ h. omega (arith, inv.bounded);
}
Step-Inv s s' inv (greets r r' tid on) = record {
  made = λ i. omega (arith, inv.made i, count-append i tid r r');
  named = inv.named;
  bounded = inv.bounded;
  complete = inv.complete;
}

Reach-Inv : (s : Process) → Reach s → Inv s
unfolding announced greeted count is_open is_left
Reach-Inv s begins = record {
  made = λ i. ground arith;
  named = λ i. ground arith;
  bounded = omega arith;
  complete = λ h. cc;
}
Reach-Inv s (goes_on reach step) = Step-Inv _ s (Reach-Inv _ reach) step

-- Whatever the order of the steps, and whether `pthread_create` fails or not: a thread has greeted at
-- most as often as it was announced, so never before, and that is at most once, for the numbers
-- below 5 only.
pub greeted-le-announced :
    (s : Process) (i : ℕ)
    → Reach s
    → (greeted i s.printed ≤ announced i s.printed) × (announced i s.printed ≤ below i num_threads)
greeted-le-announced s i reach =
    let inv = Reach-Inv s reach in
    (omega (arith, inv.made i, inv.named i), ground (arith, inv.named i, inv.bounded))

-- When `main` has left by `pthread_exit` and no thread is still to greet, each of the numbers below 5
-- was announced once and has greeted once, and no other.
pub greeted_complete :
    (s : Process) (i : ℕ)
    → Reach s
    → s.place ≡ left
    → s.running ≡ []
    → (greeted i s.printed ≡ below i num_threads) × (announced i s.printed ≡ below i num_threads)
unfolding is_left is_open count
greeted_complete s i reach gone all =
    let inv = Reach-Inv s reach in
    let full : s.t ≡ num_threads = inv.complete (rw gone refl) in
    let none_left : count i s.running ≡ 0 = rw all refl in
    let closed : is_open s.place ≡ false = rw gone refl in
    let greetings = rw full at inv.made i in
    let names = rw (full, closed) at inv.named i in (omega (arith, greetings), omega (arith, names))
