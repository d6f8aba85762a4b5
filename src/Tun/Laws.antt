-- ===== src/Tun/Laws.antt =====
-- What tun_alloc leaves open, on every path, and which name the kernel is asked for.
use good_command.Common.{
  ℕ, zero, suc, ◌-◌, ◌≤◌, ◌<◌, ◌≡◌, refl, ◌∙◌, ap, ◌⊎◌, inl, inr, true, false, none, some, List, [],
  ◌∷◌, append-nil, arith, ltb, ◌==◌, Bool-cases, if◌then◌else◌, length, take, replicate, Yields,
}
use good_command.Common.Int.{ℤ, pos, ltb_ℤ}
use good_command.Clib.Bytes.{c_string}
use good_command.Clib.Bytes.Text.{NoNul, c_string-append, c_string-NoNul}
use good_command.Tun.{
  Ifreq, Kernel, ifnamsiz, strncpy, request, copy_name, Outcome, iff_tap, iff_tun, tap_alloc,
  tun_device_alloc, tun_alloc,
}

-- What the manual pages promise of the calls: `descriptors` are those that are open. A call that fails
-- returns a negative number; a device has a name of less than `ifnamsiz` bytes.
pub record IsSystem {World : Type 0} (kernel : Kernel World) (descriptors : World → List ℤ)
    : Type 0 where
  pub opens :
      (w : World)
      → ((ltb_ℤ (kernel.open_tun w).0 (pos 0) ≡ true)
          × (descriptors (kernel.open_tun w).1 ≡ descriptors w))
        ⊎ ((ltb_ℤ (kernel.open_tun w).0 (pos 0) ≡ false)
            × (descriptors (kernel.open_tun w).1 ≡ (kernel.open_tun w).0 ∷ descriptors w))
  pub keeps :
      (fd : ℤ) (ifr : Ifreq) (w : World) → descriptors (kernel.set_iff fd ifr w).1.1 ≡ descriptors w
  pub names :
      (fd : ℤ) (ifr : Ifreq) (w : World)
      → ltb_ℤ (kernel.set_iff fd ifr w).0 (pos 0) ≡ false
      → (t : List ℕ) × (c_string (kernel.set_iff fd ifr w).1.0.ifr_name ≡ some t)
        × (length t < ifnamsiz)
  pub closes :
      (fd : ℤ) (fds : List ℤ) (w : World)
      → descriptors w ≡ fd ∷ fds
      → descriptors (kernel.close fd w) ≡ fds

-- A failure leaves what was open and the name; a success leaves one more descriptor, the one returned.
abbrev pub Clean : {World : Type 0} → (World → List ℤ) → List ℕ → World → Outcome World → Type 0
Clean descriptors dev w (r, (dev', w')) =
    (((ltb_ℤ r (pos 0) ≡ true) × (dev' ≡ dev)) × (descriptors w' ≡ descriptors w))
    ⊎ (((ltb_ℤ r (pos 0) ≡ false) × (length dev' < ifnamsiz))
        × (descriptors w' ≡ r ∷ descriptors w))

-- With a buffer of `ifnamsiz` bytes or more for the name tun_alloc ends, and on every path leaves no
-- descriptor open but the one that it returns.
pub tun_alloc-Clean :
    {World : Type 0} (kernel : Kernel World) (descriptors : World → List ℤ) (flags capacity : ℕ)
    (dev : List ℕ) (w : World)
    → IsSystem kernel descriptors
    → ifnamsiz ≤ capacity
    → Yields (Clean descriptors dev w) (tun_alloc kernel flags capacity dev w)
unfolding tun_alloc copy_name
tun_alloc-Clean kernel descriptors flags capacity dev w sys large =
    let opened = kernel.open_tun w in
    let fd = opened.0 in
    let asked = kernel.set_iff fd (request flags dev) opened.1 in
    elim (sys.opens w) [
      | inl (failed, same) ↦ rw failed (inl ((failed, refl), same))
      | inr (ok, one) ↦
          let kept = sys.keeps fd (request flags dev) opened.1 ∙ one in
          elim (Bool-cases (ltb_ℤ asked.0 (pos 0))) [
            | inl refused ↦
                rw (ok, refused)
                  (inl ((refused, refl), sys.closes fd (descriptors w) asked.1.1 kept))
            | inr granted ↦
                let (t, e, short) = sys.names fd (request flags dev) opened.1 granted in
                let room : ltb (length t) capacity ≡ true = ground arith in
                rw (ok, granted, e, room) (inr ((ok, short), kept))
          ]
    ]

-- For a system that keeps to its manual pages, tun_alloc of both programs ends, with the buffer of 100
-- bytes of their `main`, and on every path leaves no descriptor open but the one that it returns.
pub allocs-Clean :
    {World : Type 0} (kernel : Kernel World) (descriptors : World → List ℤ) (dev : List ℕ)
    (w : World)
    → IsSystem kernel descriptors
    → Yields (Clean descriptors dev w) (tap_alloc kernel dev w)
      × Yields (Clean descriptors dev w) (tun_device_alloc kernel dev w)
unfolding tap_alloc tun_device_alloc
allocs-Clean kernel descriptors dev w sys = (
  tun_alloc-Clean kernel descriptors iff_tap 100 dev w sys (omega arith),
  tun_alloc-Clean kernel descriptors iff_tun 100 dev w sys (omega arith),
)

take-all : (n : ℕ) (s : List ℕ) → length s ≤ n → take n s ≡ s
take-all zero [] le = refl
take-all zero (c ∷ s) le = absurd (omega arith)
take-all (suc n) [] le = refl
take-all (suc n) (c ∷ s) le = ap (λ t. c ∷ t) (take-all n s (omega arith))

NoNul-take : (n : ℕ) (s : List ℕ) → NoNul s → NoNul (take n s)
NoNul-take zero s h = tt
NoNul-take (suc n) [] h = tt
NoNul-take (suc n) (c ∷ s) h = (h.0, NoNul-take n s h.1)

-- The array of a name, which is closed by NUL only if the name is shorter than the array.
c_string-strncpy :
    (n : ℕ) (s : List ℕ)
    → NoNul s
    → c_string (strncpy n s) ≡ (if ltb (length s) n then some s else none)
unfolding strncpy
c_string-strncpy n s h = elim (Bool-cases (ltb (length s) n)) [
  | inl short ↦
      let e : n - length s ≡ suc (n - length s - 1) = ground arith in
      rw (short, take-all n s (ground arith), e)
        (c_string-append s (replicate (n - length s - 1) 0) h)
  | inr long ↦
      let e : n - length s ≡ 0 = ground arith in
      rw (long, e, append-nil (take n s)) (c_string-NoNul (take n s) (NoNul-take n s h))
]

-- The kernel is asked for the flags and for the name in `dev`, empty or not, if it has less than
-- `ifnamsiz` bytes, and otherwise for a name that no NUL closes.
request-c_string :
    (flags : ℕ) (dev : List ℕ)
    → NoNul dev
    → (c_string (request flags dev).ifr_name
        ≡ (if ltb (length dev) ifnamsiz then some dev else none))
      × ((request flags dev).ifr_flags ≡ flags)
unfolding request
request-c_string flags [] h = (c_string-append [] (replicate 15 0) tt, refl)
request-c_string flags (c ∷ dev) h =
    let some_name : (length (c ∷ dev) == 0) ≡ false = ground arith in
    rw some_name (c_string-strncpy ifnamsiz (c ∷ dev) h, refl)
