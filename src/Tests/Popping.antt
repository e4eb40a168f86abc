-- ===== src/Tests/Popping.antt =====
-- The loop of `executeCommandsInQueue` on a linked list of two commands.
use redshell.Base.{refl, none, some, [], ◌∷◌, ℕ, arith}
use redshell.Command.{Command}
use redshell.Jobs.Loop.{run_commands}
use redshell.Jobs.Queued.{run_queued, Refines, run_queued-Refines}
use redshell.Queue.Fifo.{Shows, shows_some}
use redshell.Queue.{Heap, Queue, set}
use redshell.Tests.Chains.{chained}
use redshell.Tests.Ordering.{logging, logged, list_files, files_first}
use redshell.Tests.Redirecting.{for_one, before_any}

abbrev two_nodes : Heap Command ℕ
two_nodes =
    set Command ℕ
      (set Command ℕ (λ a. none) 40
        (some (record { data_of = files_first; next = some 56; free_function = 1 })))
      56 (some (record { data_of = list_files; next = none; free_function = 1 }))

abbrev two_queued : Queue Command ℕ
two_queued = record { count = 2; head = some 40; tail = some 56 }

two_queued-Shows : Shows Command ℕ two_nodes two_queued ((files_first, 1) ∷ (list_files, 1) ∷ [])
unfolding set
two_queued-Shows =
    shows_some ((40, (files_first, 1)) ∷ []) 56 (list_files, 1) (some 40) 2 _ refl refl
      (refl, (some 56, (refl, refl))) refl (tt, tt) ((omega arith), tt)

run_queued-Refines_example :
    Refines chained logging logged ℕ
      ((files_first, 1) ∷ (list_files, 1) ∷ [])
      (run_commands chained logging logged for_one 0 (files_first ∷ list_files ∷ []) before_any)
      (run_queued chained logging logged ℕ for_one 0 2 before_any (two_nodes, two_queued))
run_queued-Refines_example =
    run_queued-Refines chained logging logged ℕ for_one 0 ((files_first, 1) ∷ (list_files, 1) ∷ [])
      before_any (two_nodes, two_queued) two_queued-Shows
