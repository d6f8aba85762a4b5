-- ===== src/Strings/Laws.antt =====
-- When a loop of strcat.c stays within its array.
use good_command.Common.{
  ℕ, zero, suc, ◌+◌, ◌≤◌, ◌<◌, ◌≡◌, refl, inl, inr, option-cases, Bool-cases, ltb, none, List, [],
  ◌∷◌, arith, length, get_elem?, trap,
}
use good_command.Strings.{array_bytes}

get_elem?-past : (s : List ℕ) (i : ℕ) → length s ≤ i → get_elem? s i ≡ none
get_elem?-past [] i h = refl
get_elem?-past (c ∷ s) zero h = absurd (omega arith)
get_elem?-past (c ∷ s) (suc i) h = get_elem?-past s i (omega arith)

-- A loop over more bytes than an array has reads past its end.
array_bytes-past :
    (s : List ℕ) (i n : ℕ) → i ≤ length s → length s < i + n → array_bytes s i n ≡ trap
unfolding array_bytes
array_bytes-past s i zero le h = absurd (omega arith)
array_bytes-past s i (suc n) le h = elim (Bool-cases (ltb i (length s))) [
  | inl inside ↦
      let next = array_bytes-past s (i + 1) n (ground (arith, inside)) (omega arith) in
      elim (option-cases (get_elem? s i)) [
        | inl past ↦ rw past refl
        | inr (c, byte) ↦ rw (byte, next) refl
      ]
  | inr outside ↦ rw (get_elem?-past s i (ground (arith, outside))) refl
]
