-- ===== src/Tests/Redirecting.antt =====
-- `ls <in >out` in the system that keeps a log.
use redshell.Base.{◌≡◌, refl, none, some, [], ◌∷◌, codes, ok, str_eq}
use redshell.Builtins.{is_among, commands}
use redshell.Command.{Command}
use redshell.Jobs.Loop.{Frame, Fixed, Step, run_command, settle_last, fixed_for, first_frame}
use redshell.Jobs.Order.{forked}
use redshell.Jobs.Redirected.{Split, run_command-Split}
use redshell.Jobs.{parent, wait_for}
use redshell.Tests.Chains.{chained}
use redshell.Tests.Ordering.{logging, logged, unset, quiet_world, list_files}

abbrev pub redirected_files : Command
redirected_files = record list_files {
  redirect_from_path = some (codes "in");
  redirect_to_path = some (codes "out");
}

abbrev pub before_any : Frame chained logging logged
before_any = first_frame chained logging logged unset unset (redirected_files ∷ []) none quiet_world

abbrev pub for_one : Fixed chained logging logged
for_one = fixed_for chained logging logged (redirected_files ∷ []) quiet_world

run_command-Split_example :
    (step : Step chained logging logged) × (run_command chained logging logged for_one 0
        redirected_files 0 before_any
      ≡ ok step)
    × Split chained logging logged for_one redirected_files
        (codes "ls")
        []
        before_any
        (parent (some 0), forked (some 0) ∷ [])
        step
unfolding settle_last wait_for is_among commands str_eq
run_command-Split_example =
    run_command-Split chained logging logged for_one 0 redirected_files 0 before_any (codes "ls") []
      (codes "in") (codes "out") 5 6 [] [] refl refl refl refl refl refl refl refl refl
