-- ===== src/Tun/Tests.antt =====
-- A system with one device in use, and theorems at it.
use good_command.Common.{
  ℕ, ◌≡◌, refl, inr, List, [], ◌∷◌, arith, ◌==◌, if◌then◌else◌, length, value, Yields,
}
use good_command.Common.Int.{ℤ, pos, negsuc}
use good_command.Clib.Bytes.{c_string}
use good_command.Tun.{Kernel, request, copy_name, strncpy, tun_alloc, tap_alloc, tun_device_alloc}
use good_command.Tun.Main.{read_loop, device_main, tap_main, tun_main}
use good_command.Tun.Main.Laws.{IsLibrary, Closed, mains-Closed}
use good_command.Tun.Laws.{IsSystem, Clean, allocs-Clean}

-- "tun0"
abbrev tun0 : List ℕ
tun0 = b't' ∷ b'u' ∷ b'n' ∷ b'0' ∷ []

abbrev other : List ℤ → List ℤ
other [] = []
other (fd ∷ fds) = fds

-- Descriptors are numbered by how many are open; every request names the device "tun0", and is refused
-- when the flag is that of a tap device.
abbrev system : Kernel (List ℤ)
system = record {
  open_tun = λ w. (pos (length w), pos (length w) ∷ w);
  set_iff = λ fd ifr w. (
    if ifr.ifr_flags == 2 then negsuc 0 else pos 0,
    (record { ifr_name = b't' ∷ b'u' ∷ b'n' ∷ b'0' ∷ 0 ∷ []; ifr_flags = ifr.ifr_flags }, w),
  );
  close = λ fd w. other w;
}

system-IsSystem : IsSystem system (λ w. w)
unfolding c_string
system-IsSystem = record {
  opens = λ w. inr (ground arith, refl);
  keeps = λ fd ifr w. refl;
  names = λ fd ifr w ok. (tun0, refl, omega arith);
  closes = λ fd fds w e. rw e refl;
}

run_tun : tun_alloc system 1 100 tun0 [] ≡ value (pos 0, (tun0, pos 0 ∷ []))
unfolding tun_alloc copy_name c_string request strncpy
run_tun = refl

run_refused : tun_alloc system 2 100 tun0 [] ≡ value (negsuc 0, (tun0, []))
unfolding tun_alloc copy_name c_string request strncpy
run_refused = refl

allocs-Clean_example :
    Yields (Clean (λ w. w) tun0 []) (tap_alloc system tun0 [])
    × Yields (Clean (λ w. w) tun0 []) (tun_device_alloc system tun0 [])
allocs-Clean_example = allocs-Clean system (λ w. w) tun0 [] system-IsSystem

-- No packet arrives.
never : ℤ → List ℤ → ℤ × List ℤ
never fd w = (negsuc 0, w)

run_main : tun_main system never 3 [] ≡ value record { status = pos 1; printed = []; system = [] }
unfolding tun_main device_main read_loop tun_device_alloc tun_alloc copy_name c_string request
    strncpy never
run_main = refl

never-IsLibrary : IsLibrary system never (λ w. w)
unfolding never
never-IsLibrary = record {
  open_fails = λ w h. ground (arith, h);
  set_fails = λ fd ifr w h. ground (arith, h);
  read_keeps = λ fd w. refl;
}

mains-Closed_example :
    Yields (Closed (λ w. w) []) (tap_main system never 1 [])
    × Yields (Closed (λ w. w) []) (tun_main system never 1 [])
unfolding never
mains-Closed_example =
    mains-Closed system never (λ w. w) 1 [] system-IsSystem never-IsLibrary
      (λ fd w. (0, omega arith, refl))
