-- ===== src/Postfix/Evaluate/Bounded.antt =====
-- `cal_bstr` of 224.c on its stack of printed numbers does what it does on a list of numbers.
use good_command.Common.{
  ℕ, zero, suc, ◌+◌, ◌≤◌, ◌≡◌, refl, ◌∙◌, ap, sym, inl, inr, List, [], ◌∷◌, append-nil, some, arith,
  ◌==◌, length, length-drop, drop, Exec, value, trap, Agree, values, traps, no_fuels, Agree-bind,
  Agree-if, Agree-option, Agree-value, Agree-mono, value-inj, if-value,
}
use good_command.Common.Int.{ℤ, ◌+ℤ◌, ◌-ℤ◌, ◌*ℤ◌}
use good_command.Clib.Int32.{IsInt, to_int-IsInt}
use good_command.Clib.Int32
use good_command.Clib.Int32.Bounds.{div-IsInt}
use good_command.Clib.Scan.{scan_int}
use good_command.Clib.Scan.Laws.{scan_int-reads}
use good_command.Clib.Print.{print_int}
use good_command.Clib.Print.Laws.{length-print_int, scan_int-print_int}
use good_command.Clib.Print.Short.{scan_int-IsShort}
use good_command.Postfix.Stack.{Stack, stack_init}
use good_command.Postfix.Stack.Refine.{Holds, init-Holds, push-Holds, pop-nil, pop-cons, rest-Holds}
use good_command.Postfix.Translate.{is_legal_op}
use good_command.Postfix.Evaluate.{
  compute, Numbers, push_number, pop_number, array_numbers, apply_operator, cal_loop, evaluate,
  cal_bstr_within,
}

abbrev pub list_pop : List ℤ → Exec (ℤ × List ℤ)
list_pop [] = trap
list_pop (v ∷ ns) = value (v, ns)

abbrev pub list_numbers : Numbers
list_numbers = record { Carrier = List ℤ; push = λ v ns. value (v ∷ ns); pop = list_pop }

abbrev AllInt : List ℤ → Type 0
AllInt [] = Unit {0}
AllInt (v ∷ ns) = IsInt v × AllInt ns

-- With `m` bytes of the `len` of the text left, the numbers fit the stack.
record Fits (len m : ℕ) (st : Stack) (ns : List ℤ) : Type 0 where
  stack : Holds print_int len st ns
  few : length ns + m ≤ len
  ints : AllInt ns

compute-IsInt : (c : ℕ) (a b v : ℤ) → IsInt b → compute c a b ≡ value v → IsInt v
unfolding compute Int32.add Int32.sub Int32.mul
compute-IsInt c a b v h e = elim (if-value (c == b'+') e) [
  | inl added ↦ rw (← value-inj added) (to_int-IsInt (a +ℤ b))
  | inr (_, e1) ↦ elim (if-value (c == b'-') e1) [
    | inl subtracted ↦ rw (← value-inj subtracted) (to_int-IsInt (b -ℤ a))
    | inr (_, e2) ↦ elim (if-value (c == b'*') e2) [
      | inl multiplied ↦ rw (← value-inj multiplied) (to_int-IsInt (a *ℤ b))
      | inr (_, e3) ↦ elim (if-value (c == b'/') e3) [
        | inl divided ↦ div-IsInt b a v h divided
        | inr (_, e4) ↦ rw (← value-inj e4) (omega arith)
      ]
    ]
  ]
]

pop-Fits :
    {len m : ℕ} (st : Stack) (ns : List ℤ)
    → Fits len m st ns
    → Agree
        (λ a b. (a.0 ≡ b.0) × IsInt b.0 × Fits len (suc m) a.1 b.1)
        (pop_number st)
        (list_pop ns)
unfolding pop_number
pop-Fits st [] h = rw (pop-nil print_int h.stack) traps
pop-Fits st (v ∷ ns) h =
    let (node, text, popped) = pop-cons print_int v ns (omega (arith, h.few)) h.stack in
    let scanned : scan_int (print_int v) ≡ some (v, length (print_int v)) =
      ap scan_int (sym (append-nil (print_int v))) ∙ scan_int-print_int v [] h.ints.0 tt in
    rw popped (
      rw (text, scanned)
        (values (
          refl,
          h.ints.0,
          record {
            stack = rest-Holds print_int v ns h.stack;
            few = omega (arith, h.few);
            ints = h.ints.1;
          },
        )))

push-Fits :
    {len m : ℕ} (v : ℤ) (st : Stack) (ns : List ℤ)
    → IsInt v
    → Fits len (suc m) st ns
    → Agree (Fits len m) (push_number v st) (value (v ∷ ns))
unfolding push_number
push-Fits v st ns int h =
    let (st', held, pushed) =
      push-Holds print_int 1 v ns (omega (arith, h.few)) (omega (arith, length-print_int v))
        h.stack in
    rw pushed (values record { stack = held; few = omega (arith, h.few); ints = (int, h.ints) })

weaken : {len m m' : ℕ} {st : Stack} {ns : List ℤ} → m' ≤ m → Fits len m st ns → Fits len m' st ns
weaken le h = record { stack = h.stack; few = omega (arith, h.few, le); ints = h.ints }

apply_operator-Fits :
    {len m : ℕ} (c : ℕ) (st : Stack) (ns : List ℤ)
    → Fits len m st ns
    → Agree (Fits len m) (apply_operator array_numbers c st) (apply_operator list_numbers c ns)
unfolding apply_operator
apply_operator-Fits c st ns h = Agree-bind (pop-Fits st ns h) λ t1 n1 (same1, int1, h1).
    Agree-bind (pop-Fits t1.1 n1.1 h1) λ t2 n2 (same2, int2, h2).
      rw (same1, same2)
        (Agree-value (compute c n1.0 n2.0) λ v e.
          push-Fits v t2.1 n2.1 (compute-IsInt c n1.0 n2.0 v int2 e) (weaken (omega arith) h2))

cal_loop-Fits :
    {len : ℕ} (fuel : ℕ) (s : List ℕ) (st : Stack) (ns : List ℤ)
    → Fits len (length s) st ns
    → Agree (Fits len 0) (cal_loop array_numbers fuel s st) (cal_loop list_numbers fuel s ns)
unfolding cal_loop
cal_loop-Fits zero s st ns h = no_fuels
cal_loop-Fits (suc fuel) [] st ns h = values h
cal_loop-Fits (suc fuel) (c ∷ s) st ns h =
    Agree-if (is_legal_op c)
      (Agree-bind (apply_operator-Fits c st ns h)
        λ st' ns' h'. cal_loop-Fits fuel s st' ns' (weaken (omega arith) h'))
      (Agree-if (c == b' ') (cal_loop-Fits fuel s st ns (weaken (omega arith) h)) (
        Agree-option (scan_int (c ∷ s)) (cal_loop-Fits fuel (c ∷ s) st ns h) λ found e.
          let reads = scan_int-reads (c ∷ s) found.0 found.1 e in
          let fewer : suc (length (drop found.1 (c ∷ s))) ≤ length (c ∷ s) =
            omega (arith, reads, length-drop found.1 (c ∷ s)) in
          Agree-bind
            (push-Fits found.0 st ns (scan_int-IsShort (c ∷ s) found.0 found.1 e).int
              (weaken fewer h))
            (cal_loop-Fits fuel (drop found.1 (c ∷ s)))))

-- The number, and as many others on the stack as are left on the list.
pub record Leaves (r : ℤ × Stack) (q : ℤ × List ℤ) : Type 0 where
  pub number : r.0 ≡ q.0
  pub used : r.1.used ≡ length q.1

-- On every text but the empty one, and for any number of rounds, `cal_bstr` on its stack, with `it` at
-- -1 before, ends as it does on an unbounded list of numbers: no number is pushed outside the array,
-- and each is read again as it was printed.
pub cal_bstr_within-unbounded :
    (fuel c : ℕ) (s : List ℕ) (st : Stack)
    → st.used ≡ 0
    → Agree Leaves (cal_bstr_within fuel (c ∷ s) st) (evaluate list_numbers fuel (c ∷ s) [])
unfolding cal_bstr_within evaluate
cal_bstr_within-unbounded fuel c s st e =
    Agree-bind
      (cal_loop-Fits fuel (c ∷ s) (stack_init (length (c ∷ s)) st) []
        record { stack = init-Holds print_int (length (c ∷ s)) st e; few = omega arith; ints = tt })
      λ st' ns' h'.
        Agree-mono (pop-Fits st' ns' h')
          λ r q (same, _, held). record { number = same; used = held.stack.used }
