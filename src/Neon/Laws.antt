-- ===== src/Neon/Laws.antt =====
-- What neon_hello_world.c prints.
use good_command.Common.{
  ℕ, zero, suc, ◌+◌, ◌/◌, ◌%◌, ◌≤◌, ◌<◌, ◌≡◌, refl, sym, ◌∙◌, ap, inl, inr, true, false, List, [],
  ◌∷◌, ◌++◌, append_assoc, map, arith, ltb, if◌then◌else◌, length, replicate, get_elem?, value,
  Bool-cases,
}
use good_command.Sorted.{All}
use good_command.Clib.Bytes.{codes}
use good_command.Clib.Print.{digits_of, print_unsigned}
use good_command.Neon.{Intrinsics, two_digits, numbers, add3, print_uint8, run}

-- Lane by lane, modulo 256.
unfoldable pub add_lanes : List ℕ → List ℕ → List ℕ
add_lanes [] q = []
add_lanes (c ∷ p) [] = []
add_lanes (c ∷ p) (d ∷ q) = (c + d) % 256 ∷ add_lanes p q

-- The bytes of an array of the size of a vector.
pub record IsArray (p : List ℕ) : Type 0 where
  pub size : length p ≡ 16
  pub bytes : All (λ c. c < 256) p

-- The manual of the intrinsics.
pub record IsNeon (neon : Intrinsics) : Type 0 where
  pub moves : (n : ℕ) → n < 256 → neon.vst1q_u8 (neon.vmovq_n_u8 n) ≡ replicate 16 n
  pub adds :
      (a b : neon.Vector)
      → neon.vst1q_u8 (neon.vaddq_u8 a b) ≡ add_lanes (neon.vst1q_u8 a) (neon.vst1q_u8 b)
  pub loads : (p : List ℕ) → IsArray p → neon.vst1q_u8 (neon.vld1q_u8 p) ≡ p

-- A byte in decimal, with two digits or three.
unfoldable pub decimal_text : ℕ → List ℕ
decimal_text c =
    if ltb c 100
    then (b'0' + c / 10) ∷ (b'0' + c % 10) ∷ []
    else (b'0' + c / 100) ∷ (b'0' + c / 10 % 10) ∷ (b'0' + c % 10) ∷ []

-- A blank behind each.
unfoldable pub texts : List ℕ → List ℕ
unfolding decimal_text
texts [] = []
texts (c ∷ p) = decimal_text c ++ b' ' ∷ texts p

add_lanes-replicate :
    (k n : ℕ) (p : List ℕ) → length p ≡ k → add_lanes p (replicate k n) ≡ map (λ c. (c + n) % 256) p
unfolding add_lanes
add_lanes-replicate zero n [] h = refl
add_lanes-replicate zero n (c ∷ p) h = absurd (omega arith)
add_lanes-replicate (suc k) n [] h = refl
add_lanes-replicate (suc k) n (c ∷ p) h =
    ap (λ q. (c + n) % 256 ∷ q) (add_lanes-replicate k n p (omega arith))

digits_of-last : (k n : ℕ) (acc : List ℕ) → n < 10 → digits_of (suc k) n acc ≡ n ∷ acc
unfolding digits_of
digits_of-last k n acc h = let last : ltb n 10 ≡ true = ground arith in rw last refl

digits_of-more :
    (k n : ℕ) (acc : List ℕ)
    → 10 ≤ n
    → digits_of (suc k) n acc ≡ digits_of k (n / 10) (n % 10 ∷ acc)
unfolding digits_of
digits_of-more k n acc h = let more : ltb n 10 ≡ false = ground arith in rw more refl

two_digits-decimal_text : (c : ℕ) → c < 256 → two_digits c ≡ decimal_text c
unfolding two_digits print_unsigned decimal_text
two_digits-decimal_text c h = elim (Bool-cases (ltb c 10)) [
  | inl one ↦
      let lt : c < 10 = ground arith in
      let small : ltb c 100 ≡ true = ground arith in
      let tens : c / 10 ≡ 0 = omega arith in
      let ones : c % 10 ≡ c = omega arith in rw (digits_of-last 18 c [] lt, small, tens, ones) refl
  | inr more ↦
      let ge : 10 ≤ c = ground arith in
      elim (Bool-cases (ltb c 100)) [
        | inl two ↦
            let tens : c / 10 < 10 = ground arith in
            rw (digits_of-more 18 c [] ge, digits_of-last 17 (c / 10) (c % 10 ∷ []) tens, two) refl
        | inr three ↦
            let tens : 10 ≤ c / 10 = ground arith in
            let hundreds : c / 10 / 10 < 10 = omega arith in
            let same : c / 10 / 10 ≡ c / 100 = omega arith in
            rw
              (
                digits_of-more 18 c [] ge,
                digits_of-more 17 (c / 10) (c % 10 ∷ []) tens,
                digits_of-last 16 (c / 10 / 10) (c / 10 % 10 ∷ c % 10 ∷ []) hundreds,
                three,
                same,
              )
              refl
      ]
]

-- The bytes `p`, which stand from `i` on in `q`.
numbers-texts :
    (p q : List ℕ) (i : ℕ)
    → All (λ c. c < 256) p
    → ((j : ℕ) → j < length p → get_elem? q (i + j) ≡ get_elem? p j)
    → numbers (length p) i q ≡ value (texts p)
unfolding numbers texts
numbers-texts [] q i small h = refl
numbers-texts (c ∷ p) q i (lt, small) h =
    let start : i ≡ i + 0 = omega arith in
    let here : get_elem? q i ≡ get_elem? (c ∷ p) 0 = ap (get_elem? q) start ∙ h 0 (omega arith) in
    let rest : numbers (length p) (i + 1) q ≡ value (texts p) =
      numbers-texts p q (i + 1) small (λ j l.
        let next : i + 1 + j ≡ i + suc j = omega arith in
        ap (get_elem? q) next ∙ h (suc j) (omega arith)) in
    rw (here, rest, two_digits-decimal_text c lt) refl

print_uint8-texts :
    (neon : Intrinsics) (vector : neon.Vector) (name p : List ℕ)
    → neon.vst1q_u8 vector ≡ p
    → IsArray p
    → print_uint8 neon vector name ≡ value (name ++ (codes " = " ++ (texts p ++ 10 ∷ [])))
unfolding print_uint8
print_uint8-texts neon vector name p stored array =
    let printed : numbers 16 0 p ≡ value (texts p) =
      ap (λ n. numbers n 0 p) (sym array.size)
      ∙ numbers-texts p p 0 array.bytes (λ j l. ap (get_elem? p) (omega arith)) in
    rw (stored, printed) refl

map-bytes : (p : List ℕ) → All (λ c. c < 256) (map (λ c. (c + 3) % 256) p)
map-bytes [] = tt
map-bytes (c ∷ p) = (omega arith, map-bytes p)

map-size : (p : List ℕ) → length (map (λ c. (c + 3) % 256) p) ≡ length p
map-size [] = refl
map-size (c ∷ p) = ap suc (map-size p)

-- For the intrinsics as their manual describes them, and any sixteen bytes: the program prints on one line
-- "data = " and the bytes, and on the next "data (new) = " and each of the bytes plus 3, modulo 256. A
-- byte is printed in decimal, with two digits if it is below 100 and three if not, and a blank behind it.
pub run-texts :
    (neon : Intrinsics) (p : List ℕ)
    → IsNeon neon
    → IsArray p
    → run neon p
      ≡ value (
          codes "data = "
          ++ (texts p
              ++ (codes "\ndata (new) = " ++ (texts (map (λ c. (c + 3) % 256) p) ++ codes "\n"))))
unfolding run add3
run-texts neon p is array =
    let vector = neon.vld1q_u8 p in
    let q = map (λ c. (c + 3) % 256) p in
    let added : neon.vst1q_u8 (neon.vaddq_u8 vector (neon.vmovq_n_u8 3)) ≡ q =
      is.adds vector (neon.vmovq_n_u8 3)
      ∙ rw (is.loads p array, is.moves 3 (omega arith)) (add_lanes-replicate 16 3 p array.size) in
    rw
      (
        print_uint8-texts neon vector (codes "data") p (is.loads p array) array,
        print_uint8-texts neon (neon.vaddq_u8 vector (neon.vmovq_n_u8 3)) (codes "data (new)") q
            added record { size = map-size p ∙ array.size; bytes = map-bytes p },
      )
      (ap (λ t. value (codes "data = " ++ t))
        (append_assoc (texts p) (10 ∷ []) (codes "data (new) = " ++ (texts q ++ 10 ∷ []))))
