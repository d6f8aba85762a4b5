-- ===== src/Postfix/Translate/Bounded.antt =====
-- `mtob` of 224.c on its array and its buffer does what it does on unbounded lists: no push finds
-- the stack full, and nothing is written past the end of `bstr`.
use good_command.Common.{
  ℕ, suc, ◌+◌, ◌*◌, ◌≤◌, ◌≡◌, refl, ◌∙◌, ap, false, List, [], ◌∷◌, ◌++◌, append_assoc, arith, ◌==◌,
  length, length-append, value, Agree, values, traps,
}
use good_command.Common.Int.{ℤ}
use good_command.Clib.Print.{print_int}
use good_command.Clib.Print.Short.{IsShort, print_int-NoNul}
use good_command.Clib.Bytes.{store, strcpy}
use good_command.Clib.Bytes.Filled.{filled, store-filled, strcpy-filled}
use good_command.Clib.Bytes.Text.{NoNul, NoNul-append}
use good_command.Postfix.Order.{emit, emit_number}
use good_command.Postfix.Stack.{Stack}
use good_command.Postfix.Stack.Refine.{
  list_is_empty, Holds, is_empty-Holds, top-nil, top-cons, push-Holds, pop-nil, pop-cons,
  rest-Holds,
}
use good_command.Postfix.Translate.{
  Translation, push_op, move_op, flush_op, print_number, array_sink,
}
use good_command.Postfix.Translate.Lists.{list_top, list_move, list_discard}

abbrev pub op_text : ℕ → List ℕ
op_text c = c ∷ []

-- With `m` bytes of the `len` of the text left, the operators fit the stack, and two bytes for each
-- operator and each byte left fit the buffer.
pub record Fits (len m : ℕ) (t : Translation) (st : List ℕ × List ℕ) : Type 0 where
  pub stack : Holds op_text len t.stack st.0
  pub bstr : t.bstr ≡ filled ((len + 1) * 2) st.1
  pub bi : t.bi ≡ length st.1
  pub few : length st.0 + m ≤ len
  pub short : length st.1 + 2 * length st.0 + 2 * m ≤ 2 * len
  pub ops_clean : NoNul st.0
  pub out_clean : NoNul st.1

pub weaken :
    {len m m' : ℕ} {t : Translation} {st : List ℕ × List ℕ}
    → m' ≤ m
    → Fits len m t st
    → Fits len m' t st
weaken le h = record {
  stack = h.stack;
  bstr = h.bstr;
  bi = h.bi;
  few = omega (arith, h.few);
  short = omega (arith, h.short);
  ops_clean = h.ops_clean;
  out_clean = h.out_clean;
}

blank_behind :
    (len j c : ℕ) (out : List ℕ)
    → j ≡ length out + 1
    → length out + 2 ≤ 2 * len + 1
    → store (filled ((len + 1) * 2) (out ++ c ∷ [])) j b' '
      ≡ value (filled ((len + 1) * 2) (emit c out))
blank_behind len j c out e le =
    store-filled ((len + 1) * 2) j (out ++ c ∷ []) b' ' (omega (arith, length-append out (c ∷ [])))
      (omega (arith, length-append out (c ∷ [])))
    ∙ ap (λ w. value (filled ((len + 1) * 2) w)) (append_assoc out (c ∷ []) (b' ' ∷ []))

module _ {len m : ℕ} where
  pub has_none-Fits :
      {t : Translation} {st : List ℕ × List ℕ}
      → Fits len m t st
      → array_sink.has_none t ≡ list_is_empty st.0
  has_none-Fits {st} h = is_empty-Holds op_text st.0 h.stack

  pub top-Fits :
      {t : Translation} (st : List ℕ × List ℕ) → Fits len m t st → array_sink.top t ≡ list_top st
  top-Fits ([], out) h = rw (top-nil op_text h.stack) refl
  top-Fits (o ∷ os, out) h =
      let (node, text, top) = top-cons op_text o os (omega (arith, h.few)) h.stack in
      rw top (rw text refl)

  -- Room for a text and its NUL.
  copied :
      (t : Translation) (st : List ℕ × List ℕ) (w : List ℕ)
      → Fits len m t st
      → length st.1 + length w ≤ 2 * len + 1
      → strcpy t.bstr t.bi w ≡ value (filled ((len + 1) * 2) (st.1 ++ w))
  copied t st w h le = rw h.bstr (strcpy-filled ((len + 1) * 2) t.bi st.1 w h.bi (omega arith))

  moved-Fits :
      {t : Translation} (o : ℕ) (os out : List ℕ) (stack : Stack) (j : ℕ)
      → Fits len m t (o ∷ os, out)
      → Holds op_text len stack os
      → j ≡ length out + 2
      → Fits len m
          (record { stack = stack; bstr = filled ((len + 1) * 2) (emit o out); bi = j })
          (os, emit o out)
  moved-Fits o os out stack j h held e =
      let size = length-append out (o ∷ b' ' ∷ []) in
      record {
        stack = held;
        bstr = refl;
        bi = omega (arith, size);
        few = omega (arith, h.few);
        short = omega (arith, size, h.short);
        ops_clean = h.ops_clean.1;
        out_clean = NoNul-append out (o ∷ b' ' ∷ []) h.out_clean (h.ops_clean.0, (refl, tt));
      }

  pub move-Fits :
      {t : Translation} (st : List ℕ × List ℕ)
      → Fits len m t st
      → Agree (Fits len m) (move_op t) (list_move st)
  unfolding move_op
  move-Fits ([], out) h = rw (pop-nil op_text h.stack) traps
  move-Fits {t} (o ∷ os, out) h =
      let (node, text, popped) = pop-cons op_text o os (omega (arith, h.few)) h.stack in
      rw (popped, text, copied t (o ∷ os, out) (o ∷ []) h (omega (arith, h.short)))
        (rw (blank_behind len (t.bi + 1) o out (omega (arith, h.bi)) (omega (arith, h.short))) (
          values (
            moved-Fits o os out _ (t.bi + 2) h (rest-Holds op_text o os h.stack)
              (omega (arith, h.bi)))))

  pub flush-Fits :
      {t : Translation} (st : List ℕ × List ℕ)
      → Fits len m t st
      → Agree (Fits len m) (flush_op t) (list_move st)
  unfolding flush_op
  flush-Fits ([], out) h = rw (pop-nil op_text h.stack) traps
  flush-Fits {t} (o ∷ os, out) h =
      let (node, text, popped) = pop-cons op_text o os (omega (arith, h.few)) h.stack in
      rw (popped, text, copied t (o ∷ os, out) (o ∷ []) h (omega (arith, h.short)))
        (rw (blank_behind len (t.bi + 1) o out (omega (arith, h.bi)) (omega (arith, h.short))) (
          values (
            moved-Fits o os out _ (t.bi + 1 + 1) h (rest-Holds op_text o os h.stack)
              (omega (arith, h.bi)))))

  pub discard-Fits :
      {t : Translation} (st : List ℕ × List ℕ)
      → Fits len (suc m) t st
      → Agree (Fits len m) (array_sink.discard t) (list_discard st)
  discard-Fits ([], out) h = rw (pop-nil op_text h.stack) traps
  discard-Fits (o ∷ os, out) h =
      let (node, text, popped) = pop-cons op_text o os (omega (arith, h.few)) h.stack in
      rw popped (
        values record {
          stack = rest-Holds op_text o os h.stack;
          bstr = h.bstr;
          bi = h.bi;
          few = omega (arith, h.few);
          short = omega (arith, h.short);
          ops_clean = h.ops_clean.1;
          out_clean = h.out_clean;
        })

  pub push-Fits :
      {t : Translation} (c : ℕ) (st : List ℕ × List ℕ)
      → (c == 0) ≡ false
      → Fits len (suc m) t st
      → Agree (Fits len m) (push_op c t) (value (c ∷ st.0, st.1))
  unfolding push_op
  push-Fits c st clean h =
      let (st', held, pushed) =
        push-Holds op_text 0 c st.0 (omega (arith, h.few)) (omega arith) h.stack in
      rw pushed (
        values record {
          stack = held;
          bstr = h.bstr;
          bi = h.bi;
          few = omega (arith, h.few);
          short = omega (arith, h.short);
          ops_clean = (clean, h.ops_clean);
          out_clean = h.out_clean;
        })

  -- A number of `n` bytes of the text.
  pub number-Fits :
      {t : Translation} (v : ℤ) (n m' : ℕ) (st : List ℕ × List ℕ)
      → IsShort v n
      → m' + n ≤ m
      → Fits len m t st
      → Agree (Fits len m') (print_number v t) (value (st.0, emit_number v st.1))
  unfolding print_number
  number-Fits {t} v n m' st shown le h =
      let w = print_int v ++ b' ' ∷ [] in
      let size : length w ≡ length (print_int v) + 1 =
        omega (arith, length-append (print_int v) (b' ' ∷ [])) in
      rw (copied t st w h (omega (arith, size, shown.length_le, h.short))) (
        values record {
          stack = h.stack;
          bstr = refl;
          bi = omega (arith, h.bi, length-append st.1 w);
          few = omega (arith, h.few);
          short = omega (arith, size, shown.length_le, h.short, length-append st.1 w);
          ops_clean = h.ops_clean;
          out_clean =
              NoNul-append st.1 w h.out_clean
                (NoNul-append (print_int v) (b' ' ∷ []) (print_int-NoNul v) (refl, tt));
        })
