-- ===== src/Tun/Main/Laws.antt =====
-- When `main` of create_tap.c and create_tun.c ends, and what it leaves open.
use good_command.Common.{
  ℕ, zero, suc, ◌<◌, ◌≡◌, ◌≢◌, refl, sym, ◌∙◌, ◌⊎◌, inl, inr, true, false, List, [], ◌∷◌, ◌++◌,
  arith, Exec, value, trap, no_fuel, ◌>>=◌, Yields, ap, if-value, value-inj, bind-value_inv,
}
use good_command.Common.Int.{ℤ, pos, negsuc, ltb_ℤ, ◌==ℤ◌}
use good_command.Clib.Bytes.{codes}
use good_command.Tun.{
  Kernel, Ifreq, Outcome, iff_tap, iff_tun, request, copy_name, tun_alloc, tap_alloc,
  tun_device_alloc,
}
use good_command.Tun.Laws.{IsSystem, Clean, tun_alloc-Clean}
use good_command.Tun.Main.{End, read_loop, device_main, tap_main, tun_main}

false-ne-true : false ≢ true
false-ne-true h = cc

Yields-bind_eq :
    {A B : Type 0} (P : A → Type 0) (Q : B → Type 0) (m : Exec A) (f : A → Exec B)
    → Yields P m
    → ((a : A) → m ≡ value a → P a → Yields Q (f a))
    → Yields Q (m >>= f)
Yields-bind_eq P Q (value a) f p next = next a refl p
Yields-bind_eq P Q trap f p next = p
Yields-bind_eq P Q no_fuel f p next = p

not_minus_one : (v : ℤ) → ltb_ℤ v (pos 0) ≡ false → (v ==ℤ negsuc 0) ≡ false
not_minus_one v h = ground (arith, h)

module _ {World : Type 0} (read : ℤ → World → ℤ × World) where
  -- After `n` reads that succeed the next one fails.
  abbrev pub FailsAfter : ℕ → ℤ → World → Type 0
  FailsAfter zero fd w = ltb_ℤ (read fd w).0 (pos 0) ≡ true
  FailsAfter (suc n) fd w = (ltb_ℤ (read fd w).0 (pos 0) ≡ false) × FailsAfter n fd (read fd w).1

-- Either no device was made, or it was read to the end; nothing is left open.
abbrev pub Closed : {World : Type 0} → (World → List ℤ) → World → End World → Type 0
Closed descriptors w e =
    (descriptors e.system ≡ descriptors w) × ((e.status ≡ negsuc 0) ⊎ (e.status ≡ pos 1))

module _ {World : Type 0} (kernel : Kernel World) (read : ℤ → World → ℤ × World)
    (descriptors : World → List ℤ) where
  -- What the manual pages promise: a call that fails returns -1, and a read opens and closes nothing.
  pub record IsLibrary : Type 0 where
    pub open_fails :
        (w : World) → ltb_ℤ (kernel.open_tun w).0 (pos 0) ≡ true → (kernel.open_tun w).0 ≡ negsuc 0
    pub set_fails :
        (fd : ℤ) (ifr : Ifreq) (w : World)
        → ltb_ℤ (kernel.set_iff fd ifr w).0 (pos 0) ≡ true
        → (kernel.set_iff fd ifr w).0 ≡ negsuc 0
    pub read_keeps : (fd : ℤ) (w : World) → descriptors (read fd w).1 ≡ descriptors w

  module _ (sys : IsSystem kernel descriptors) (lib : IsLibrary) where
    read_loop-Closed :
        (rounds n : ℕ) (fd : ℤ) (printed : List ℤ) (w₀ w : World)
        → n < rounds
        → FailsAfter read n fd w
        → descriptors w ≡ fd ∷ descriptors w₀
        → Yields (Closed descriptors w₀) (read_loop kernel read rounds fd printed w)
    unfolding read_loop
    read_loop-Closed zero n fd printed w₀ w lt fails one = absurd (omega arith)
    read_loop-Closed (suc rounds) zero fd printed w₀ w lt fails one =
        rw fails
          (sys.closes fd (descriptors w₀) (read fd w).1 (lib.read_keeps fd w ∙ one), inr refl)
    read_loop-Closed (suc rounds) (suc n) fd printed w₀ w lt (ok, fails) one = rw ok (
        read_loop-Closed rounds n fd (printed ++ (read fd w).0 ∷ []) w₀ (read fd w).1 (omega arith)
          fails (lib.read_keeps fd w ∙ one))

    tun_alloc-minus_one :
        (flags capacity : ℕ) (dev : List ℕ) (w : World) (o : Outcome World)
        → tun_alloc kernel flags capacity dev w ≡ value o
        → ltb_ℤ o.0 (pos 0) ≡ true
        → o.0 ≡ negsuc 0
    unfolding tun_alloc
    tun_alloc-minus_one flags capacity dev w o e negative =
        let opened = kernel.open_tun w in
        let asked = kernel.set_iff opened.0 (request flags dev) opened.1 in
        elim (if-value (ltb_ℤ opened.0 (pos 0)) e) [
          | inl failed ↦
              let same : opened.0 ≡ o.0 = ap (λ (p : Outcome World). p.0) (value-inj failed) in
              sym same ∙ lib.open_fails w (ap (λ z. ltb_ℤ z (pos 0)) same ∙ negative)
          | inr (ok, e₁) ↦ elim (if-value (ltb_ℤ asked.0 (pos 0)) e₁) [
            | inl refused ↦
                let same : asked.0 ≡ o.0 = ap (λ (p : Outcome World). p.0) (value-inj refused) in
                sym same
                ∙ lib.set_fails opened.0 (request flags dev) opened.1
                    (ap (λ z. ltb_ℤ z (pos 0)) same ∙ negative)
            | inr (_, e₂) ↦
                let (t, _, made) = bind-value_inv (copy_name capacity asked.1.0) _ e₂ in
                let same : opened.0 ≡ o.0 = ap (λ (p : Outcome World). p.0) (value-inj made) in
                absurd (false-ne-true (sym ok ∙ ap (λ z. ltb_ℤ z (pos 0)) same ∙ negative))
          ]
        ]

    device_main-Closed :
        (rounds flags : ℕ) (dev : List ℕ) (w : World)
        → ((fd : ℤ) (w' : World) → (n : ℕ) × (n < rounds) × FailsAfter read n fd w')
        → Yields
            (Closed descriptors w)
            (device_main kernel read rounds (tun_alloc kernel flags 100) dev w)
    unfolding device_main
    device_main-Closed rounds flags dev w fails =
        Yields-bind_eq (Clean descriptors dev w) (Closed descriptors w)
          (tun_alloc kernel flags 100 dev w) _
          (tun_alloc-Clean kernel descriptors flags 100 dev w sys (omega arith))
          λ o e clean. elim clean [
            | inl ((negative, _), same) ↦
                let one = tun_alloc-minus_one flags 100 dev w o e negative in
                let stops : (o.0 ==ℤ negsuc 0) ≡ true = rw one refl in rw stops (same, inl refl)
            | inr ((ok, _), opened) ↦
                let goes : (o.0 ==ℤ negsuc 0) ≡ false = not_minus_one o.0 ok in
                let (n, lt, after) = fails o.0 o.1.1 in
                rw goes (read_loop-Closed rounds n o.0 [] w o.1.1 lt after opened)
          ]

-- For a system that keeps to its manual pages, and on which every device fails to be read within the
-- rounds of the loop, `main` of both programs ends, with -1 or with 1, and leaves no descriptor open.
pub mains-Closed :
    {World : Type 0} (kernel : Kernel World) (read : ℤ → World → ℤ × World)
    (descriptors : World → List ℤ) (rounds : ℕ) (w : World)
    → IsSystem kernel descriptors
    → IsLibrary kernel read descriptors
    → ((fd : ℤ) (w' : World) → (n : ℕ) × (n < rounds) × FailsAfter read n fd w')
    → Yields (Closed descriptors w) (tap_main kernel read rounds w)
      × Yields (Closed descriptors w) (tun_main kernel read rounds w)
unfolding tap_main tun_main tap_alloc tun_device_alloc
mains-Closed kernel read descriptors rounds w sys lib fails = (
  device_main-Closed kernel read descriptors sys lib rounds iff_tap (codes "tap-default") w fails,
  device_main-Closed kernel read descriptors sys lib rounds iff_tun (codes "tun-default") w fails,
)
