-- ===== src/Frequency/Pool.antt =====
-- The pool of counts: what it stands for, and that this is the text.
use mathlib.Core.Logic.{∥∥₁_elim}
use mathlib.Core.Path.{subst}
use mathlib.Core.List.{Perm, Permᴰ, perm_middle, Perm-prop, perm_append_comm}
use mathlib.Core.List.Perm
use good_command.Common.{
  ℕ, zero, suc, ◌+◌, ◌^◌, ◌≤◌, ◌<◌, ◌≡◌, refl, sym, ap, ◌∙◌, ◌⊎◌, inl, inr, true, false, List, [],
  ◌∷◌, ◌++◌, append_assoc, arith, ltb, ◌==◌, Bool-cases, if◌then◌else◌, length, length-set,
  get_or-set_self, get_or-set_ne, get_or, set, replicate, Yields,
}
use good_command.Common.Int.{pos, pos_part, ◌+ℤ◌}
use good_command.Clib.Int32
use good_command.Sorted.{All}
use good_command.Frequency.{char_max, Elemnt, cleared, count_loop}

abbrev pub copies_of : Elemnt → List ℕ
copies_of x = replicate (pos_part x.frequency) x.e

-- The bytes that the places of a pool stand for.
abbrev pub expand : List Elemnt → List ℕ
expand [] = []
expand (x ∷ pool) = copies_of x ++ expand pool

expand-Permᴰ : {xs ys : List Elemnt} → Permᴰ xs ys → Perm (expand xs) (expand ys)
expand-Permᴰ Permᴰ.nil = Perm.nil
expand-Permᴰ (Permᴰ.cons {a} {b} {l₁} {l₂} e d) =
    subst (λ y. Perm (copies_of a ++ expand l₁) (copies_of y ++ expand l₂)) e
      (Perm.append_left (copies_of a) (expand-Permᴰ d))
expand-Permᴰ (Permᴰ.swap {a} {b} {a'} {b'} {l} e₁ e₂) =
    subst
      (λ y.
        Perm (copies_of a ++ (copies_of b ++ expand l)) (copies_of a' ++ (copies_of y ++ expand l)))
      e₁
      (subst
        (λ y.
          Perm (copies_of a ++ (copies_of b ++ expand l))
            (copies_of y ++ (copies_of a ++ expand l)))
        e₂
        (subst (λ t. Perm t (copies_of b ++ (copies_of a ++ expand l)))
          (append_assoc (copies_of a) (copies_of b) (expand l))
          (subst (Perm ((copies_of a ++ copies_of b) ++ expand l))
            (append_assoc (copies_of b) (copies_of a) (expand l))
            (Perm.append_right (expand l) (perm_append_comm (copies_of a) (copies_of b))))))
expand-Permᴰ (Permᴰ.trans d₁ d₂) = Perm.trans (expand-Permᴰ d₁) (expand-Permᴰ d₂)

pub expand-Perm : {xs ys : List Elemnt} → Perm xs ys → Perm (expand xs) (expand ys)
expand-Perm p = ∥∥₁_elim p Perm-prop expand-Permᴰ

-- One more of `c` at its place `i`, which holds `c` or nothing.
set-Perm :
    (pool : List Elemnt) (i c n : ℕ)
    → i < length pool
    → ((get_or pool i cleared).e ≡ c) ⊎ (n ≡ 0)
    → (get_or pool i cleared).frequency ≡ pos n
    → Perm (expand (set pool i (record { e = c; frequency = pos (suc n) }))) (c ∷ expand pool)
set-Perm [] i c n lt h e = absurd (omega arith)
set-Perm (x ∷ pool) zero c n lt h e =
    let same : replicate n c ≡ copies_of x = elim h [
      | inl byte ↦ rw (e, byte) refl
      | inr none ↦ rw (e, none) refl
    ] in
    subst (λ t. Perm (c ∷ (replicate n c ++ expand pool)) (c ∷ (t ++ expand pool))) same
      (Perm.refl (c ∷ (replicate n c ++ expand pool)))
set-Perm (x ∷ pool) (suc i) c n lt h e =
    Perm.trans (Perm.append_left (copies_of x) (set-Perm pool i c n (omega arith) h e))
      (perm_middle (copies_of x) (expand pool))

abbrev pub count : ℕ → List ℕ → ℕ
count b [] = 0
count b (c ∷ s) = if b == c then suc (count b s) else count b s

count-le : (b : ℕ) (s : List ℕ) → count b s ≤ length s
count-le b [] = omega arith
count-le b (c ∷ s) = ground (arith, count-le b s)

-- A place that is in use counts all occurrences of its byte in `w`.
pub record IsPlace (w : List ℕ) (x : Elemnt) : Type 0 where
  pub counts : (n : ℕ) × (x.frequency ≡ pos n) × (n < 2 ^ 31)
  pub unused : x.e ≡ 0 → x.frequency ≡ pos 0
  pub all : (x.e ≡ 0) ⊎ (x.frequency ≡ pos (count x.e w))

-- The place `i` while the text `s` is still to be read.
pub record Place (w s : List ℕ) (i : ℕ) (x : Elemnt) : Type 0 where
  n : ℕ
  counted : x.frequency ≡ pos n
  left : n + count i s ≡ count i w
  own : (x.e ≡ i) ⊎ ((n ≡ 0) × (x.e ≡ 0))

pub record Pool (w s : List ℕ) (pool : List Elemnt) : Type 0 where
  room : length pool ≡ 127
  place : (i : ℕ) → i < 127 → Place w s i (get_or pool i cleared)
  pub bytes : Perm (expand pool ++ s) w

-- Every byte is one of those that have a place, and none is NUL.
abbrev pub InPool : List ℕ → Type 0
InPool [] = Unit {0}
InPool (c ∷ s) = (0 < c) × (c < 127) × InPool s

add-one : (n : ℕ) → n + 1 < 2 ^ 31 → Int32.add (pos n) (pos 1) ≡ pos (suc n)
unfolding Int32.add ◌+ℤ◌
add-one n lt = Int32.to_int-eq_self (pos n +ℤ pos 1) (ground arith) ∙ ground arith

Pool-step :
    (w s : List ℕ) (c : ℕ) (pool : List Elemnt)
    → length w < 2 ^ 31
    → 0 < c
    → c < 127
    → Pool w (c ∷ s) pool
    → Pool w s (
        set pool c
          (record { e = c; frequency = Int32.add (get_or pool c cleared).frequency (pos 1) }))
Pool-step w s c pool small pos_c lt p =
    let h = p.place c lt in
    let le = count-le c w in
    let self : (c == c) ≡ true = ground arith in
    let left : suc h.n + count c s ≡ count c w = omega (arith, rw self at h.left) in
    let one : Int32.add (get_or pool c cleared).frequency (pos 1) ≡ pos (suc h.n) =
      ap (λ f. Int32.add f (pos 1)) h.counted ∙ add-one h.n (omega arith) in
    let own : ((get_or pool c cleared).e ≡ c) ⊎ (h.n ≡ 0) = elim h.own [
      | inl byte ↦ inl byte
      | inr none ↦ inr none.0
    ] in
    rw one record {
      room = length-set pool c _ ∙ p.room;
      place = λ i lt'. elim (Bool-cases (c == i)) [
        | inl same ↦
            let e : i ≡ c = ground arith in
            rw
              (
                e,
                get_or-set_self pool c (record { e = c; frequency = pos (suc h.n) }) cleared
                    (omega (arith, p.room)),
              )
              record { n = suc h.n; counted = refl; left = left; own = inl refl }
        | inr other ↦
            let q = p.place i lt' in
            let differ : (i == c) ≡ false = ground arith in
            rw
              (get_or-set_ne pool c i (record { e = c; frequency = pos (suc h.n) }) cleared
                (ground arith))
              record { n = q.n; counted = q.counted; left = rw differ at q.left; own = q.own }
      ];
      bytes =
          Perm.trans
            (Perm.append_right s (set-Perm pool c c h.n (omega (arith, p.room)) own h.counted))
            (Perm.trans (Perm.symm (perm_middle (expand pool) s)) p.bytes);
    }

pub count_loop-Pool :
    (w s : List ℕ) (pool : List Elemnt)
    → length w < 2 ^ 31
    → InPool s
    → Pool w s pool
    → Yields (Pool w []) (count_loop s pool)
unfolding count_loop
count_loop-Pool w [] pool small h p = p
count_loop-Pool w (c ∷ s) pool small (pos_c, lt, h) p =
    let inside : ltb c 127 ≡ true = ground arith in
    rw inside (count_loop-Pool w s _ small h (Pool-step w s c pool small pos_c lt p))

get_or-cleared : (n i : ℕ) → get_or (replicate n cleared) i cleared ≡ cleared
get_or-cleared zero i = refl
get_or-cleared (suc n) zero = refl
get_or-cleared (suc n) (suc i) = get_or-cleared n i

pub cleared-Pool : (s : List ℕ) → Pool s s (replicate char_max cleared)
cleared-Pool s = record {
  room = refl;
  place = λ i lt.
      rw (get_or-cleared 127 i)
        record { n = 0; counted = refl; left = omega arith; own = inr (refl, refl) };
  bytes = Perm.refl s;
}

All-of_get_or :
    (P : Elemnt → Type 0) (pool : List Elemnt)
    → ((i : ℕ) → i < length pool → P (get_or pool i cleared))
    → All P pool
All-of_get_or P [] h = tt
All-of_get_or P (x ∷ pool) h =
    (h 0 (omega arith), All-of_get_or P pool (λ i lt. h (suc i) (omega arith)))

pub count-nul : (w : List ℕ) → InPool w → count 0 w ≡ 0
count-nul [] h = refl
count-nul (c ∷ w) (some_byte, lt, h) =
    let differ : (0 == c) ≡ false = ground arith in rw differ (count-nul w h)

pub Pool-All :
    (w : List ℕ) (pool : List Elemnt)
    → length w < 2 ^ 31
    → count 0 w ≡ 0
    → Pool w [] pool
    → All (IsPlace w) pool
Pool-All w pool small no_nul p = All-of_get_or (IsPlace w) pool (λ i lt.
    let q = p.place i (omega (arith, p.room)) in
    let n : q.n ≡ count i w = omega (arith, q.left) in
    record {
      counts = (q.n, q.counted, omega (arith, count-le i w));
      unused = λ nul.
          q.counted
          ∙ ap pos (elim q.own [
            | inl e ↦ n ∙ ap (λ b. count b w) (sym e ∙ nul) ∙ no_nul
            | inr none ↦ none.0
          ]);
      all = elim q.own [
        | inl e ↦ inr (q.counted ∙ ap pos (n ∙ ap (λ b. count b w) (sym e)))
        | inr none ↦ inl none.1
      ];
    })
