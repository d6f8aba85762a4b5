-- ===== src/Tun/Main.antt =====
-- `main` of create_tap.c and create_tun.c: the device is read until a read fails.
pub mod Laws
use good_command.Common.{
  ℕ, zero, suc, List, [], ◌∷◌, ◌++◌, if◌then◌else◌, Exec, value, no_fuel, ◌>>=◌,
}
use good_command.Common.Int.{ℤ, pos, negsuc, ltb_ℤ, ◌==ℤ◌}
use good_command.Clib.Bytes.{codes}
use good_command.Tun.{Kernel, Outcome, tap_alloc, tun_device_alloc}

-- The status of the process, the numbers of bytes that are printed, and the system.
pub record End (World : Type 0) : Type 0 where
  pub status : ℤ
  pub printed : List ℤ
  pub system : World

module _ {World : Type 0} (kernel : Kernel World) (read : ℤ → World → ℤ × World) where
  -- The loop, behind what is printed. It ends when a read returns a negative number, by `exit (1)`.
  unfoldable pub read_loop : ℕ → ℤ → List ℤ → World → Exec (End World)
  read_loop zero tun_fd printed w = no_fuel
  read_loop (suc rounds) tun_fd printed w =
      let got = read tun_fd w in
      let next = read_loop rounds tun_fd (printed ++ got.0 ∷ []) got.1 in
      if ltb_ℤ got.0 (pos 0)
      then value record { status = pos 1; printed = printed; system = kernel.close tun_fd got.1 }
      else next

  unfoldable pub device_main :
      ℕ → (List ℕ → World → Exec (Outcome World)) → List ℕ → World → Exec (End World)
  device_main rounds alloc dev w = alloc dev w >>= λ made.
      if made.0 ==ℤ negsuc 0
      then value record { status = negsuc 0; printed = []; system = made.1.1 }
      else read_loop rounds made.0 [] made.1.1

  unfoldable pub tap_main : ℕ → World → Exec (End World)
  unfolding tap_alloc device_main
  tap_main rounds w = device_main rounds (tap_alloc kernel) (codes "tap-default") w

  unfoldable pub tun_main : ℕ → World → Exec (End World)
  unfolding tun_device_alloc device_main
  tun_main rounds w = device_main rounds (tun_device_alloc kernel) (codes "tun-default") w
