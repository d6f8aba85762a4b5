-- ===== src/Fishing/Log/Laws.antt =====
-- What loading the module of fishing.c leaves behind.
use good_command.Common.{
  ℕ, ◌≤◌, ◌≡◌, refl, Option, none, some, List, ◌++◌, length, Yields, Yields-bind,
}
use good_command.Clib.Bytes.{codes}
use good_command.Fishing.{get_mem}
use good_command.Fishing.Fill.{Left, get_mem-Left}
use good_command.Fishing.Log.{mem_size, get_mem_log, Loaded, hello_init}

-- The log by whether there is a block, byte by byte.
abbrev pub expected_log : List ℕ → Option (List ℕ) → List ℕ
expected_log address none = codes "I bear a charmed life.\nkmalloc fail!\n"
expected_log address (some mem) =
    codes "I bear a charmed life.\nAddress:" ++ (address ++ codes "\n")

-- The status 0, the lines, and the block, filled.
pub record IsLoaded (address : List ℕ) (kernel_mem : Option (List ℕ)) (r : Loaded) : Type 0 where
  pub log : r.log ≡ expected_log address kernel_mem
  pub status : r.status ≡ 0
  pub mem : Left mem_size kernel_mem r.mem

hello_init-log :
    (address : List ℕ) (kernel_mem : Option (List ℕ))
    → codes "I bear a charmed life.\n" ++ get_mem_log address kernel_mem
      ≡ expected_log address kernel_mem
unfolding get_mem_log
hello_init-log address none = refl
hello_init-log address (some mem) = refl

-- The module is loaded, with the status 0, whether kmalloc fails or not. It logs "I bear a charmed life."
-- and then, when kmalloc fails, "kmalloc fail!", or, when it returns a block as large as asked for or
-- larger, "Address:" and its address, each on a line. In this block the letters from a to z are written,
-- over and over, up to the size asked for, and all bytes behind it are left as they were.
pub hello_init-IsLoaded :
    (address : List ℕ) (kernel_mem : Option (List ℕ))
    → ((mem : List ℕ) → kernel_mem ≡ some mem → mem_size ≤ length mem)
    → Yields (IsLoaded address kernel_mem) (hello_init address kernel_mem)
unfolding hello_init
hello_init-IsLoaded address kernel_mem large =
    Yields-bind (Left mem_size kernel_mem) (IsLoaded address kernel_mem)
      (get_mem mem_size kernel_mem) _ (get_mem-Left mem_size kernel_mem large)
      (λ left h. record { log = hello_init-log address kernel_mem; status = refl; mem = h })
