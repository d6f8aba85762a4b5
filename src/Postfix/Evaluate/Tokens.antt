-- ===== src/Postfix/Evaluate/Tokens.antt =====
-- The loop of `cal_bstr` in 224.c over one token of a postfix text, on a list of numbers.
use good_command.Common.{
  ℕ, zero, suc, ◌+◌, ◌^◌, ◌≤◌, ◌<◌, ◌≡◌, refl, ◌∙◌, ap, sym, true, List, [], ◌∷◌, ◌++◌,
  append_assoc, arith, length, length-append, Exec, ◌>>=◌, >>=_assoc, >>=_congr,
}
use good_command.Common.Int.{ℤ, pos}
use good_command.Clib.Scan.{is_digit}
use good_command.Clib.Scan.Decimal.{decimal, numeral, length-numeral, drop-numeral}
use good_command.Clib.Print.{print_int}
use good_command.Clib.Print.Laws.{digits_of-IsDecimal_int, numeral-append}
use good_command.Expression.{Literal}
use good_command.Expression.Literals.{scan-Literal}
use good_command.Expression.Rounds.{more}
use good_command.Postfix.Translate.{is_legal_op}
use good_command.Postfix.Evaluate.{apply_operator, cal_loop}
use good_command.Postfix.Evaluate.Bounded.{list_numbers}

abbrev pub loop : ℕ → List ℕ → List ℤ → Exec (List ℤ)
loop = cal_loop list_numbers

more-suc : (n k : ℕ) → more n (suc k) ≡ more (suc n) k
unfolding more
more-suc zero k = refl
more-suc (suc n) k = ap suc (more-suc n k)

-- The loop reads `out`, and does with its numbers what `m` does.
pub record Evaluates (out : List ℕ) (m : List ℤ → Exec (List ℤ)) : Type 0 where
  pub rounds : ℕ
  pub few : rounds ≤ length out
  pub reads :
      (k : ℕ) (rest : List ℕ) (ns : List ℤ)
      → loop (more rounds k) (out ++ rest) ns ≡ (m ns >>= loop k rest)

-- Behind `out` a token of at least two bytes, blank included, that takes two rounds.
pub Evaluates-token :
    (out w : List ℕ) (m f : List ℤ → Exec (List ℤ))
    → Evaluates out m
    → 2 ≤ length w
    → ((k : ℕ) (rest : List ℕ) (ns : List ℤ)
        → loop (suc (suc k)) (w ++ rest) ns ≡ (f ns >>= loop k rest))
    → Evaluates (out ++ w) (λ ns. m ns >>= f)
unfolding more
Evaluates-token out w m f before long token = record {
  rounds = suc (suc before.rounds);
  few = omega (arith, before.few, length-append out w);
  reads = λ k rest ns. rw (← more-suc before.rounds k) (
      rw (← more-suc before.rounds (suc k)) (
        ap (λ t. loop (more before.rounds (suc (suc k))) t ns) (append_assoc out w rest)
        ∙ before.reads (suc (suc k)) (w ++ rest) ns
        ∙ >>=_congr (m ns) (token k rest)
        ∙ sym (>>=_assoc (m ns) f (loop k rest))));
}

pub operator-token :
    (c k : ℕ) (rest : List ℕ) (ns : List ℤ)
    → is_legal_op c ≡ true
    → loop (suc (suc k)) (c ∷ b' ' ∷ rest) ns ≡ (apply_operator list_numbers c ns >>= loop k rest)
unfolding cal_loop is_legal_op
operator-token c k rest ns h = rw h refl

literal-token :
    (l : Literal) (k : ℕ) (rest : List ℕ) (ns : List ℤ)
    → loop (suc (suc k)) (numeral (l.first ∷ l.others) (b' ' ∷ rest)) ns
      ≡ loop k rest (pos (decimal 0 (l.first ∷ l.others)) ∷ ns)
unfolding cal_loop is_digit
literal-token l k rest ns =
    scan-Literal l (b' ' ∷ rest) (is_legal_op (b'0' + l.first)) _ _ _ _ refl
      (unfold is_legal_op in ground (arith, l.valid.0))
    ∙ rw (drop-numeral l.others (b' ' ∷ rest)) (unfold is_legal_op in refl)

-- A number as it is printed, in place of the way it was written.
printed :
    (n : ℕ)
    → n < 2 ^ 31
    → (l : Literal) × (decimal 0 (l.first ∷ l.others) ≡ n)
      × ((rest : List ℕ) → print_int (pos n) ++ rest ≡ numeral (l.first ∷ l.others) rest)
unfolding print_int
printed n lt =
    let r = digits_of-IsDecimal_int n (omega arith) in
    (
      record { first = r.first; others = r.others; valid = r.valid; small = omega (arith, r.same) },
      r.same,
      λ rest. rw r.parts (numeral-append (r.first ∷ r.others) rest),
    )

pub some_digit : (n : ℕ) → n < 2 ^ 31 → 1 ≤ length (print_int (pos n))
some_digit n lt =
    let (l, _, text) = printed n lt in
    omega
      (arith, ap length (text []), length-append (print_int (pos n)) [], length-numeral l.others [])

pub number-token :
    (n k : ℕ) (rest : List ℕ) (ns : List ℤ)
    → n < 2 ^ 31
    → loop (suc (suc k)) ((print_int (pos n) ++ b' ' ∷ []) ++ rest) ns ≡ loop k rest (pos n ∷ ns)
number-token n k rest ns lt =
    let (l, same, text) = printed n lt in
    ap (λ t. loop (suc (suc k)) t ns)
      (append_assoc (print_int (pos n)) (b' ' ∷ []) rest ∙ text (b' ' ∷ rest))
    ∙ literal-token l k rest ns
    ∙ ap (λ v. loop k rest (pos v ∷ ns)) same
