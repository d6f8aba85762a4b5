-- ===== src/Digest/Laws.antt =====
-- The digits of sha1.c and sha256.c are read again.
use good_command.Common.{
  ℕ, ◌+◌, ◌-◌, ◌*◌, ◌/◌, ◌%◌, ◌<◌, ◌≡◌, refl, Option, none, some, List, [], ◌∷◌, ◌++◌, append-nil,
  arith, leb, ◌==◌, ◌&&◌, if◌then◌else◌, length, match_option, suc, sym, ap, ◌∙◌, replicate,
  get_elem?, value, Yields, ltb, false,
}
use good_command.Sorted.{All}
use good_command.Clib.Bytes.{codes}
use good_command.Digest.{hex_digit, print_bytes, stored, sha1_main, sha256_main}

-- A reader of lines of hexadecimal digits.
unfoldable read_digit : ℕ → Option ℕ
read_digit c =
    if leb b'0' c && leb c b'9'
    then some (c - b'0')
    else if leb b'a' c && leb c b'f'
    then some (c - b'a' + 10)
    else none

unfoldable pub read_line : List ℕ → Option (List ℕ)
unfolding read_digit
read_line [] = none
read_line (c ∷ []) = if c == 10 then some [] else none
read_line (c ∷ d ∷ s) = match_option (read_digit c) none λ high.
    match_option (read_digit d) none
      λ low. match_option (read_line s) none λ rest. some ((high * 16 + low) ∷ rest)

read_digit-hex_digit : (n : ℕ) → n < 16 → read_digit (hex_digit n) ≡ some n
unfolding read_digit hex_digit
read_digit-hex_digit n h = ground arith

-- The text of the bytes.
unfoldable hex_text : List ℕ → List ℕ
hex_text [] = []
hex_text (c ∷ buf) = hex_digit (c / 16) ∷ hex_digit (c % 16) ∷ hex_text buf

print_bytes-hex_text :
    (p rest : List ℕ) (i : ℕ) (buf : List ℕ)
    → ((j : ℕ) → get_elem? buf (i + j) ≡ get_elem? (p ++ rest) j)
    → print_bytes (length p) i buf ≡ value (hex_text p)
unfolding print_bytes hex_text
print_bytes-hex_text [] rest i buf h = refl
print_bytes-hex_text (c ∷ p) rest i buf h =
    let start : i ≡ i + 0 = omega arith in
    let here : get_elem? buf i ≡ some c = ap (get_elem? buf) start ∙ h 0 in
    let others : print_bytes (length p) (i + 1) buf ≡ value (hex_text p) =
      print_bytes-hex_text p rest (i + 1) buf (λ j.
        let next : i + 1 + j ≡ i + suc j = omega arith in ap (get_elem? buf) next ∙ h (suc j)) in
    rw (here, others) refl

print_bytes-start :
    (n : ℕ) (p rest : List ℕ) → length p ≡ n → print_bytes n 0 (p ++ rest) ≡ value (hex_text p)
print_bytes-start n p rest size =
    ap (λ k. print_bytes k 0 (p ++ rest)) (sym size)
    ∙ print_bytes-hex_text p rest 0 (p ++ rest) (λ j. ap (get_elem? (p ++ rest)) (omega arith))

read_line-hex_text :
    (buf : List ℕ) → All (λ c. c < 256) buf → read_line (hex_text buf ++ 10 ∷ []) ≡ some buf
unfolding read_line hex_text
read_line-hex_text [] h = refl
read_line-hex_text (c ∷ buf) (lt, h) =
    let same : c / 16 * 16 + c % 16 ≡ c = omega arith in
    rw
      (
        read_digit-hex_digit (c / 16) (omega arith),
        read_digit-hex_digit (c % 16) (omega arith),
        read_line-hex_text buf h,
        same,
      )
      refl

length-hex_text : (buf : List ℕ) → length (hex_text buf ++ 10 ∷ []) ≡ 2 * length buf + 1
unfolding hex_text
length-hex_text [] = refl
length-hex_text (c ∷ buf) = omega (arith, length-hex_text buf)

-- A function that writes `n` bytes.
pub record IsDigest (n : ℕ) (sha : List ℕ → List ℕ) : Type 0 where
  pub size : (s : List ℕ) → length (sha s) ≡ n
  pub bytes : (s : List ℕ) → All (λ c. c < 256) (sha s)

-- A line of as many digits as two for each of the bytes, which is read again as the bytes.
pub record IsLine (bytes text : List ℕ) : Type 0 where
  pub read : read_line text ≡ some bytes
  pub size : length text ≡ 2 * length bytes + 1

hex_text-IsLine : (buf : List ℕ) → All (λ c. c < 256) buf → IsLine buf (hex_text buf ++ 10 ∷ [])
hex_text-IsLine buf h = record { read = read_line-hex_text buf h; size = length-hex_text buf }

-- For functions that write 20 and 32 bytes both programs end, with no read or write outside an array of
-- theirs, and what each prints is read again as the whole digest of its text: two digits for each byte, and
-- an end of line.
pub mains-IsLine :
    (sha1 sha256 : List ℕ → List ℕ)
    → IsDigest 20 sha1
    → IsDigest 32 sha256
    → Yields (IsLine (sha1 (codes "compute sha1"))) (sha1_main sha1)
      × Yields (IsLine (sha256 (codes "string"))) (sha256_main sha256)
unfolding sha1_main sha256_main stored
mains-IsLine sha1 sha256 is is' =
    let d = sha1 (codes "compute sha1") in
    let d' = sha256 (codes "string") in
    let room : ltb 20 (length d) ≡ false = ground (arith, is.size (codes "compute sha1")) in
    let room' : ltb 65 (length d') ≡ false = ground (arith, is'.size (codes "string")) in
    let printed : print_bytes 20 0 d ≡ value (hex_text d) =
      ap (print_bytes 20 0) (sym (append-nil d))
      ∙ print_bytes-start 20 d [] (is.size (codes "compute sha1")) in
    let printed' =
      print_bytes-start 32 d' (replicate (65 - length d') 0) (is'.size (codes "string")) in
    (
      rw (room, printed) (hex_text-IsLine d (is.bytes (codes "compute sha1"))),
      rw (room', printed') (hex_text-IsLine d' (is'.bytes (codes "string"))),
    )
