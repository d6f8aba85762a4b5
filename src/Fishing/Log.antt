-- ===== src/Fishing/Log.antt =====
-- The entry and the exit of source/src/fishing/fishing.c with what they log, and public_code.c.
pub mod Laws
use good_command.Common.{
  ℕ, ◌*◌, Option, none, some, List, [], ◌∷◌, ◌++◌, match_option, Exec, value, ◌>>=◌,
}
use good_command.Clib.Bytes.{codes}
use good_command.Clib.Print.{print_unsigned}
use good_command.Fishing.{get_mem}

abbrev pub mem_size : ℕ
mem_size = 1 * 1024 * 1024

-- What get_mem logs, for the text of the address that kmalloc returned with a block.
unfoldable pub get_mem_log : List ℕ → Option (List ℕ) → List ℕ
get_mem_log address kernel_mem =
    match_option kernel_mem (codes "kmalloc fail!\n")
      (λ mem. codes "Address:" ++ (address ++ 10 ∷ []))

-- What is returned, the log, and the block as it is left.
pub record Loaded : Type 0 where
  pub status : ℕ
  pub log : List ℕ
  pub mem : Option (List ℕ)

-- It returns 0, whatever get_mem does, so the module is loaded.
unfoldable pub hello_init : List ℕ → Option (List ℕ) → Exec Loaded
unfolding get_mem_log
hello_init address kernel_mem = get_mem mem_size kernel_mem >>= λ left. value record {
  status = 0;
  log = codes "I bear a charmed life.\n" ++ get_mem_log address kernel_mem;
  mem = left;
}

unfoldable pub hello_exit : List ℕ
hello_exit = codes "Out, out, brief candle!\n"

-- The sizes of the types of public_code.c, in bytes.
pub record Sizes : Type 0 where
  pub int : ℕ
  pub float : ℕ
  pub double : ℕ
  pub char : ℕ
  pub long : ℕ
  pub unsigned_long : ℕ
  pub short : ℕ
  pub unsigned_short : ℕ

unfoldable pub size_line : List ℕ → ℕ → List ℕ → List ℕ
unfolding print_unsigned
size_line name size unit =
    codes "Size of " ++ (name ++ (codes ": " ++ (print_unsigned size ++ (b' ' ∷ unit ++ 10 ∷ []))))

unfoldable pub test_data_type : Sizes → List ℕ
unfolding size_line
test_data_type sizes =
    size_line (codes "int") sizes.int (codes "bytes")
    ++ (size_line (codes "float") sizes.float (codes "bytes")
        ++ (size_line (codes "double") sizes.double (codes "bytes")
            ++ (size_line (codes "char") sizes.char (codes "byte")
                ++ (size_line (codes "long") sizes.long (codes "bytes")
                    ++ (size_line (codes "unsigned long") sizes.unsigned_long (codes "bytes")
                        ++ (size_line (codes "short") sizes.short (codes "bytes")
                            ++ size_line (codes "unsigned short") sizes.unsigned_short
                                (codes "bytes")))))))
