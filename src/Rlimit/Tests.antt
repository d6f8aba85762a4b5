-- ===== src/Rlimit/Tests.antt =====
-- Runs of getrlimit.c on a system of one process, and a witness.
use good_command.Common.{
  ℕ, zero, suc, ◌≡◌, refl, Option, none, some, List, [], ◌∷◌, ◌-◌, ◌^◌, if◌then◌else◌, match_option,
}
use good_command.Common.Int.{ℤ, pos, negsuc, ◌==ℤ◌}
use good_command.Clib.Bytes.{codes}
use good_command.Clib.Scan.{scan_int}
use good_command.Rlimit
use good_command.Rlimit.{Rlimit, Prlimit, End, usage, shown, failed, atoi, to_rlim, exit_status}
use good_command.Rlimit.GetSet.{limit_loop}

-- The process with the number 7 is the only one, with the limits `w`.
abbrev one : Prlimit Rlimit
one pid newp w = if pid ==ℤ pos 7 then (some w, match_option newp w (λ new. new)) else (none, w)

abbrev limits_of : Rlimit → ℤ → Option Rlimit
limits_of w pid = if pid ==ℤ pos 7 then some w else none

abbrev old_limits : Rlimit
old_limits = record { rlim_cur = 100; rlim_max = 2 ^ 64 - 1 }

abbrev arguments : List (List ℕ)
arguments = codes "getrlimit" ∷ codes "7" ∷ codes "20" ∷ codes "-1" ∷ []

run_set : Rlimit.main one arguments old_limits ≡ record {
  ending = shown;
  printed = (pos 100, negsuc 0) ∷ (pos 20, negsuc 0) ∷ [];
  system = record { rlim_cur = 20; rlim_max = 2 ^ 64 - 1 };
}
unfolding Rlimit.main scan_int
run_set = refl

run_no_process :
    exit_status (Rlimit.main one (codes "getrlimit" ∷ codes "8" ∷ []) old_limits).ending ≡ 1
unfolding Rlimit.main exit_status scan_int
run_no_process = refl

-- A limit that goes down, and a call that fails when it is 0.
abbrev falling : ℕ → Option Rlimit × ℕ
falling zero = (none, zero)
falling (suc n) = (some (record { rlim_cur = n; rlim_max = 2 ^ 64 - 1 }), n)

run_get_set :
    limit_loop falling 2 1
    ≡ codes
        "RLMIT_FSIZE:1\nPrevious limits: soft:0; hard=-1\nRLMIT_FSIZE:1\nPrevious limits: soft:0; hard=0\n"
unfolding limit_loop
run_get_set = refl
