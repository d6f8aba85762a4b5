-- ===== src/Shared/Tests.antt =====
-- Runs of both programs.
use good_command.Common.{◌≡◌, refl}
use good_command.Clib.Bytes.{codes}
use good_command.Shared.{low, application_main, driver_main}

run_application :
    application_main ≡ codes "this is program in share library\nturning F into low case f\n"
unfolding application_main
run_application = refl

run_driver : driver_main ≡ codes "fun() call from a static library\n"
unfolding driver_main
run_driver = refl

-- A digit becomes a letter.
low_digit : low b'1' ≡ b'Q'
unfolding low
low_digit = refl
