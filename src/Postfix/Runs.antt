-- ===== src/Postfix/Runs.antt =====
-- What `main` of 224.c prints for texts of expressions.
use good_command.Common.{
  ℕ, ◌≤◌, ◌≡◌, refl, ap, List, [], ◌∷◌, ◌++◌, map, arith, length, Exec, value, ◌>>=◌, Agree, values,
  Agree-bind, Yields, Yields-Agree,
}
use good_command.Expression.{Expr, blanks, text, eval}
use good_command.Postfix.Order.{postfix}
use good_command.Postfix.Stack.{Stack}
use good_command.Clib.Bytes.{c_string, codes}
use good_command.Clib.Print.{print_int}
use good_command.Postfix.Translate.{mtob_within, mtob, start, result}
use good_command.Postfix.Calculate.{mtob_prints, lines, run_cases}
use good_command.Postfix.Correct.{Ends, grows_expr, mtob-postfix, cal_bstr-postfix}

-- A text of `main` as an expression, the blanks at its end, and its label.
pub record Case : Type 0 where
  pub label : List ℕ
  pub expr : Expr
  pub blanks_behind : ℕ

abbrev pub case_text : Case → List ℕ × List ℕ
case_text c = (c.label, text c.expr (blanks c.blanks_behind []))

-- What is to be printed for each: an end of line, its label with its postfix text, and its value on a line
-- of its own.
unfoldable pub expected : List Case → Exec (List ℕ)
expected [] = value []
expected (c ∷ cs) = do
  v ← eval c.expr
  rest ← expected cs
  let shown = codes "\ncal:" ++ (print_int v ++ 10 ∷ [])
  value (10 ∷ ((c.label ++ (postfix c.expr [] ++ shown)) ++ rest))

-- Only the empty text has an empty result.
mtob_prints-line :
    (s w : List ℕ) (stack : Stack)
    → Yields (λ r. Ends r w) (mtob s stack)
    → 1 ≤ length w
    → mtob_prints s ≡ 10 ∷ []
unfolding mtob_prints mtob mtob_within result start c_string
mtob_prints-line [] w stack ends h = absurd (omega (arith, ap length ends.0))
mtob_prints-line (c ∷ s) w stack ends h = refl

-- The runs of `main` for texts of expressions, one after the other on the same global variables: if no
-- division of the expressions traps they end, and what is printed is, for each, an end of line, its label
-- with its postfix text, and `cal:` with its value in decimal, each on a line. If a division traps, so
-- does the run.
pub run_cases-expected :
    (cs : List Case) (stack : Stack)
    → stack.used ≡ 0
    → Agree ◌≡◌ (run_cases (map case_text cs) stack) (expected cs)
unfolding run_cases expected lines
run_cases-expected [] stack h = values refl
run_cases-expected (c ∷ cs) stack h =
    let s = text c.expr (blanks c.blanks_behind []) in
    let ends = mtob-postfix c.expr c.blanks_behind stack h in
    let line =
      mtob_prints-line s (postfix c.expr []) stack ends (omega (arith, grows_expr c.expr [])) in
    Yields-Agree _ (mtob s stack) ends λ sb (same, clean).
      rw (same, line)
        (Agree-bind (cal_bstr-postfix c.expr sb.1 clean) λ r v (found, clean').
          Agree-bind (run_cases-expected cs r.1 clean')
            λ rest rest' eq. values (rw (found, eq) refl))
