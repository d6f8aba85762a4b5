-- ===== src/Digest/Tests.antt =====
-- Runs of sha1.c and sha256.c with functions that write the same bytes for every text, and a witness.
use good_command.Common.{ℕ, ◌≡◌, refl, List, arith, replicate, value, trap, Yields}
use good_command.Clib.Bytes.{codes}
use good_command.Digest.{sha1_main, sha256_main}
use good_command.Digest.Laws.{IsDigest, IsLine, mains-IsLine}

abbrev constant : ℕ → List ℕ → List ℕ
constant n s = replicate n 0x0a

run_sha1 : sha1_main (constant 20) ≡ value (codes "0a0a0a0a0a0a0a0a0a0a0a0a0a0a0a0a0a0a0a0a\n")
unfolding sha1_main
run_sha1 = refl

-- A digest of fewer bytes leaves some of the array without a value, one of more is written past it.
run_few : sha1_main (constant 19) ≡ trap
unfolding sha1_main
run_few = refl

run_many : sha1_main (constant 21) ≡ trap
unfolding sha1_main
run_many = refl

constant_20 : IsDigest 20 (constant 20)
constant_20 = record { size = λ s. refl; bytes = λ s. omega arith }

constant_32 : IsDigest 32 (constant 32)
constant_32 = record { size = λ s. refl; bytes = λ s. omega arith }

mains-IsLine_example :
    Yields (IsLine (replicate 20 0x0a)) (sha1_main (constant 20))
    × Yields (IsLine (replicate 32 0x0a)) (sha256_main (constant 32))
mains-IsLine_example = mains-IsLine (constant 20) (constant 32) constant_20 constant_32
