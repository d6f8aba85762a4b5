-- ===== src/Clib/Bytes/Filled.antt =====
-- The buffer of the result: what is written, and zeros behind it.
use good_command.Common.{
  ℕ, suc, ◌+◌, ◌-◌, ◌≤◌, ◌<◌, ◌≡◌, refl, sym, ◌∙◌, ap, true, List, [], ◌∷◌, ◌++◌, append-nil,
  append_assoc, arith, ltb, length, length-append, set, replicate, length-replicate, value,
}
use good_command.Clib.Bytes.{store, write_bytes, strcpy}

abbrev pub filled : ℕ → List ℕ → List ℕ
filled n out = out ++ replicate (n - length out) 0

set-append :
    (out rest : List ℕ) (d v : ℕ) → set (out ++ d ∷ rest) (length out) v ≡ (out ++ v ∷ []) ++ rest
set-append [] rest d v = refl
set-append (c ∷ out) rest d v = ap (λ t. c ∷ t) (set-append out rest d v)

pub store-filled :
    (n j : ℕ) (out : List ℕ) (v : ℕ)
    → j ≡ length out
    → length out < n
    → store (filled n out) j v ≡ value (filled n (out ++ v ∷ []))
unfolding store
store-filled n j out v e lt =
    let more : n - length out ≡ suc (n - length (out ++ v ∷ [])) =
      omega (arith, length-append out (v ∷ [])) in
    let room : ltb (length out) (length (filled n out)) ≡ true = ground (
      arith,
      length-append out (replicate (n - length out) 0),
      length-replicate {A = ℕ} (n - length out) 0,
    ) in
    rw (e, room)
      (ap value (rw more (set-append out (replicate (n - length (out ++ v ∷ [])) 0) 0 v)))

pub write_bytes-filled :
    (n j : ℕ) (out w : List ℕ)
    → j ≡ length out
    → length out + length w ≤ n
    → write_bytes (filled n out) j w ≡ value (filled n (out ++ w))
unfolding write_bytes
write_bytes-filled n j out [] e le = ap (λ t. value (filled n t)) (sym (append-nil out))
write_bytes-filled n j out (c ∷ w) e le = rw (store-filled n j out c e (omega arith)) (
    write_bytes-filled n (j + 1) (out ++ c ∷ []) w (omega (arith, length-append out (c ∷ [])))
      (omega (arith, length-append out (c ∷ [])))
    ∙ ap (λ t. value (filled n t)) (append_assoc out (c ∷ []) w))

-- A NUL behind what is written is one of the zeros.
filled-nul : (n : ℕ) (out : List ℕ) → length out < n → filled n (out ++ 0 ∷ []) ≡ filled n out
filled-nul n out lt =
    let one_less : n - length out ≡ suc (n - length (out ++ 0 ∷ [])) =
      omega (arith, length-append out (0 ∷ [])) in
    rw one_less (append_assoc out (0 ∷ []) (replicate (n - length (out ++ 0 ∷ [])) 0))

pub strcpy-filled :
    (n j : ℕ) (out w : List ℕ)
    → j ≡ length out
    → length out + length w < n
    → strcpy (filled n out) j w ≡ value (filled n (out ++ w))
unfolding strcpy
strcpy-filled n j out w e lt =
    write_bytes-filled n j out (w ++ 0 ∷ []) e (omega (arith, length-append w (0 ∷ [])))
    ∙ ap value (
        ap (filled n) (sym (append_assoc out w (0 ∷ [])))
        ∙ filled-nul n (out ++ w) (omega (arith, length-append out w)))
