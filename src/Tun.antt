-- ===== src/Tun.antt =====
-- tun_alloc of source/src/tap_virtual_net/create_tap.c and source/src/virtual_net/create_tun.c: a
-- network device by way of /dev/net/tun. The system calls are parameters.
pub mod Laws
pub mod Main
mod Tests
use good_command.Common.{
  ℕ, zero, suc, ◌+◌, ◌-◌, Bool, true, false, Option, none, some, List, [], ◌∷◌, ◌++◌, ltb, ◌==◌,
  if◌then◌else◌, length, take, replicate, match_option, Exec, value, trap, ◌>>=◌,
}
use good_command.Common.Int.{ℤ, pos, ltb_ℤ}
use good_command.Clib.Bytes.{c_string}

abbrev pub ifnamsiz : ℕ
ifnamsiz = 16

abbrev pub iff_tun : ℕ
iff_tun = 1

abbrev pub iff_tap : ℕ
iff_tap = 2

-- The name is an array of `ifnamsiz` bytes.
pub record Ifreq : Type 0 where
  pub ifr_name : List ℕ
  pub ifr_flags : ℕ

-- `open` of /dev/net/tun for reading and writing, `ioctl` with TUNSETIFF, and `close`, on a state of
-- the system.
pub record Kernel (World : Type 0) : Type 0 where
  pub open_tun : World → ℤ × World
  pub set_iff : ℤ → Ifreq → World → ℤ × (Ifreq × World)
  pub close : ℤ → World → World

-- `strncpy` into an array of `n` bytes: no NUL is written behind a text of `n` bytes or more.
unfoldable pub strncpy : ℕ → List ℕ → List ℕ
strncpy n text = take n text ++ replicate (n - length text) 0

-- What is asked of the kernel.
unfoldable pub request : ℕ → List ℕ → Ifreq
unfolding strncpy
request flags dev = record {
  ifr_name = if length dev == 0 then replicate ifnamsiz 0 else strncpy ifnamsiz dev;
  ifr_flags = flags;
}

-- `strcpy (dev, ifr.ifr_name)` into the `capacity` bytes of the caller.
unfoldable pub copy_name : ℕ → Ifreq → Exec (List ℕ)
unfolding c_string
copy_name capacity ifr =
    match_option (c_string ifr.ifr_name) trap
      (λ t. if ltb (length t) capacity then value t else trap)

-- The value that is returned, the text in `dev`, and the system.
abbrev pub Outcome : Type 0 → Type 0
Outcome World = ℤ × (List ℕ × World)

module _ {World : Type 0} (kernel : Kernel World) (flags capacity : ℕ) where
  open kernel use {open_tun, set_iff, close}

  unfoldable pub tun_alloc : List ℕ → World → Exec (Outcome World)
  unfolding request copy_name
  tun_alloc dev w =
      let opened = open_tun w in
      let fd = opened.0 in
      if ltb_ℤ fd (pos 0)
      then value (fd, (dev, opened.1))
      else let asked = set_iff fd (request flags dev) opened.1 in
        if ltb_ℤ asked.0 (pos 0)
        then value (asked.0, (dev, close fd asked.1.1))
        else (copy_name capacity asked.1.0 >>= λ t. value (fd, (t, asked.1.1)))

-- The two programs, which differ in the flag; `main` of both has a buffer of 100 bytes.
unfoldable pub tap_alloc : {World : Type 0} → Kernel World → List ℕ → World → Exec (Outcome World)
unfolding tun_alloc
tap_alloc kernel = tun_alloc kernel iff_tap 100

unfoldable pub tun_device_alloc :
    {World : Type 0} → Kernel World → List ℕ → World → Exec (Outcome World)
unfolding tun_alloc
tun_device_alloc kernel = tun_alloc kernel iff_tun 100
