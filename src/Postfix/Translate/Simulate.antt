-- ===== src/Postfix/Translate/Simulate.antt =====
-- `mtob` of 224.c on its array and its buffer against unbounded lists: the loops, and all of it.
use good_command.Common.{
  ℕ, zero, suc, ◌+◌, ◌*◌, ◌≤◌, ◌≡◌, refl, ap, inl, inr, true, false, Bool-cases, List, [], ◌∷◌,
  arith, leb, ◌==◌, length, length-drop, drop, replicate, value, Agree, values, no_fuels,
  Agree-bind, Agree-same, Agree-if, Agree-option, bind-value,
}
use good_command.Clib.Scan.{scan_int}
use good_command.Clib.Scan.Laws.{scan_int-within}
use good_command.Clib.Print.Short.{scan_int-IsShort}
use good_command.Clib.Bytes.Text.{c_string-filled}
use good_command.Postfix.Stack.{Stack}
use good_command.Postfix.Stack.Refine.{list_is_empty, init-Holds}
use good_command.Postfix.Translate.{
  is_legal_op, prio, Translation, array_sink, close_loop, reduce_loop, flush_loop, on_operator,
  convert_loop, convert, start, result, mtob_within,
}
use good_command.Postfix.Translate.Lists.{list_top, list_sink}
use good_command.Postfix.Translate.Bounded.{
  op_text, Fits, weaken, has_none-Fits, top-Fits, move-Fits, flush-Fits, discard-Fits, push-Fits,
  number-Fits,
}

legal_nonzero : (c : ℕ) → is_legal_op c ≡ true → (c == 0) ≡ false
unfolding is_legal_op
legal_nonzero c h = ground (arith, h)

module _ {len m : ℕ} where
  close_loop-Fits :
      (rounds : ℕ) (t : Translation) (st : List ℕ × List ℕ)
      → Fits len m t st
      → Agree (Fits len m) (close_loop array_sink rounds t) (close_loop list_sink rounds st)
  unfolding close_loop
  close_loop-Fits zero t st h = no_fuels
  close_loop-Fits (suc rounds) t st h = rw (top-Fits st h) (
      Agree-same (list_top st)
        λ c. Agree-if (c == b'(') (values h) (Agree-bind (move-Fits st h) (close_loop-Fits rounds)))

  reduce_loop-Fits :
      (rounds c : ℕ) (t : Translation) (st : List ℕ × List ℕ)
      → Fits len m t st
      → Agree (Fits len m) (reduce_loop array_sink rounds c t) (reduce_loop list_sink rounds c st)
  unfolding reduce_loop
  reduce_loop-Fits zero c t st h = no_fuels
  reduce_loop-Fits (suc rounds) c t st h = rw (top-Fits st h) (
      Agree-same (prio c) λ p. Agree-same (list_top st) λ o. Agree-same (prio o) λ q.
        Agree-if (leb p q)
          (Agree-bind (move-Fits st h) λ t' st' h'.
            rw (has_none-Fits h')
              (Agree-if (list_is_empty st'.0) (values h') (reduce_loop-Fits rounds c t' st' h')))
          (values h))

  flush_loop-Fits :
      (rounds : ℕ) (t : Translation) (st : List ℕ × List ℕ)
      → Fits len m t st
      → Agree (Fits len m) (flush_loop array_sink rounds t) (flush_loop list_sink rounds st)
  unfolding flush_loop
  flush_loop-Fits zero t st h = no_fuels
  flush_loop-Fits (suc rounds) t st h = rw (has_none-Fits h) (
      Agree-if (list_is_empty st.0) (values h)
        (Agree-bind (flush-Fits st h) (flush_loop-Fits rounds)))

on_operator-Fits :
    {len m : ℕ} (rounds c : ℕ) (t : Translation) (st : List ℕ × List ℕ)
    → (c == 0) ≡ false
    → Fits len (suc m) t st
    → Agree (Fits len m) (on_operator array_sink rounds c t) (on_operator list_sink rounds c st)
unfolding on_operator
on_operator-Fits rounds c t st clean h = rw (has_none-Fits h) (
    Agree-if (list_is_empty st.0) (push-Fits c st clean h) (
      Agree-if (c == b'(') (push-Fits c st clean h) (
        Agree-if (c == b')')
          (Agree-bind (close_loop-Fits rounds t st h) λ t' st' h'. discard-Fits st' h')
          (Agree-bind (reduce_loop-Fits rounds c t st h) λ t' st' h'. push-Fits c st' clean h'))))

module _ {len : ℕ} (rounds : ℕ) where
  convert_loop-Fits :
      (fuel : ℕ) (s : List ℕ) (t : Translation) (st : List ℕ × List ℕ)
      → Fits len (length s) t st
      → Agree
          (Fits len 0)
          (convert_loop array_sink rounds fuel s t)
          (convert_loop list_sink rounds fuel s st)
  unfolding convert_loop
  convert_loop-Fits zero s t st h = no_fuels
  convert_loop-Fits (suc fuel) [] t st h = values h
  convert_loop-Fits (suc fuel) (c ∷ s) t st h = elim (Bool-cases (is_legal_op c)) [
    | inl legal ↦ rw legal (
        Agree-bind (on_operator-Fits rounds c t st (legal_nonzero c legal) h)
          (convert_loop-Fits fuel s))
    | inr other ↦ rw other (
        Agree-if (c == b' ') (convert_loop-Fits fuel s t st (weaken (omega arith) h)) (
          Agree-option (scan_int (c ∷ s)) (convert_loop-Fits fuel (c ∷ s) t st h) λ found e.
            Agree-bind
              (number-Fits found.0 found.1 (length (drop found.1 (c ∷ s))) st
                (scan_int-IsShort (c ∷ s) found.0 found.1 e)
                (omega
                  (arith, length-drop found.1 (c ∷ s), scan_int-within (c ∷ s) found.0 found.1 e))
                h)
              (convert_loop-Fits fuel (drop found.1 (c ∷ s)))))
  ]

start-Fits :
    (s : List ℕ) (stack : Stack)
    → stack.used ≡ 0
    → Fits (length s) (length s) (start s stack) ([], [])
unfolding start
start-Fits s stack e = record {
  stack = init-Holds op_text (length s) stack e;
  bstr = ap (λ n. replicate n 0) (omega arith);
  bi = refl;
  few = omega arith;
  short = omega arith;
  ops_clean = tt;
  out_clean = tt;
}

-- What `mtob` leaves: the text, and as many operators on the stack as are left on the list.
pub record Leaves (r : List ℕ × Stack) (st : List ℕ × List ℕ) : Type 0 where
  pub text : r.0 ≡ st.1
  pub used : r.1.used ≡ length st.0

result-Leaves :
    {len : ℕ} (t : Translation) (st : List ℕ × List ℕ)
    → Fits len 0 t st
    → Agree Leaves (result t) (value st)
unfolding result
result-Leaves {len} t st h =
    rw (h.bstr, c_string-filled ((len + 1) * 2) st.1 h.out_clean (omega (arith, h.short)))
      (values record { text = refl; used = h.stack.used })

-- On every text, well formed or not, and for any number of rounds, `mtob` on its stack of
-- `strlen (s) + 1` nodes and its buffer of `2 * (strlen (s) + 1)` bytes, with `it` at -1 before, ends
-- as it does on unbounded lists: nothing is pushed or written outside them, and what it returns is
-- a text with its NUL.
pub mtob_within-unbounded :
    (rounds : ℕ) (s : List ℕ) (stack : Stack)
    → 1 ≤ rounds
    → stack.used ≡ 0
    → Agree Leaves (mtob_within rounds s stack) (convert list_sink rounds s ([], []))
unfolding mtob_within convert
mtob_within-unbounded zero s stack some_round e = absurd (omega arith)
mtob_within-unbounded (suc rounds) [] stack some_round e =
    unfold convert_loop flush_loop in
    result-Leaves (start [] stack) ([], []) (start-Fits [] stack e)
mtob_within-unbounded (suc rounds) (c ∷ s) stack some_round e =
    rw (← bind-value (convert list_sink (suc rounds) (c ∷ s) ([], []))) (
      Agree-bind
        (Agree-bind
          (convert_loop-Fits (suc rounds) (suc rounds) (c ∷ s) (start (c ∷ s) stack) ([], [])
            (start-Fits (c ∷ s) stack e))
          (flush_loop-Fits (suc rounds)))
        result-Leaves)
