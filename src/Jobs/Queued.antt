-- ===== src/Jobs/Queued.antt =====
-- The loop of `executeCommandsInQueue` on the linked list of src/queue.c, in place of the list of its
-- commands.
use redshell.Alias.Table.{HashTable}
use redshell.Alias.{Alias}
use redshell.Base.{
  ℕ, zero, suc, ◌+◌, ◌≡◌, refl, Option, none, some, List, [], ◌∷◌, ◌++◌, map, length, Run, Fault,
  null_pointer, ok, fault, ◌>>=◌, ap, ◌∙◌, sym,
}
use redshell.Builtins.{Environment}
use redshell.Command.{Command}
use redshell.Jobs.Loop.{Frame, Fixed, Step, on, over, then_step, run_command, run_commands}
use redshell.Jobs.{System}
use redshell.Queue.Fifo.{Shows, queue_pop-Shows}
use redshell.Queue.Roundtrip.{count-length}
use redshell.Queue.{Heap, Queue, queue_pop}

module _ (h : HashTable Alias) (env : Environment) (sys : System env) (F : Type 0) where
  -- the heap and the queue
  abbrev pub Queued : Type 0
  Queued = Heap Command F × Queue Command F

  -- `cmd->redirectFromPath` and so on follow the pointer
  abbrev pub run_item :
      Fixed h env sys → ℕ → Option Command → Queued → Frame h env sys → Run (Step h env sys)
  run_item x i none (heap, q) f = fault null_pointer
  run_item x i (some cmd) (heap, q) f = run_command h env sys x i cmd q.count f

  -- behind a round
  abbrev pub next_round :
      (Frame h env sys → Queued → Run (Step h env sys × Queued))
      → Queued
      → Step h env sys
      → Run (Step h env sys × Queued)
  next_round again hq (on f) = again f hq
  next_round again hq (over done fg) = ok (over done fg, hq)

  -- `for (i = 0; i < n_commands; i++)`, with the rounds that are left
  unfoldable pub run_queued :
      Fixed h env sys → ℕ → ℕ → Frame h env sys → Queued → Run (Step h env sys × Queued)
  run_queued x i zero f hq = ok (on f, hq)
  run_queued x i (suc left) f (heap, q) = do
    (item, hq) ← queue_pop Command F heap q
    step ← run_item x i item hq f
    next_round (run_queued x (i + 1) left) hq step

  -- the run on the linked list does what the run on the list does, and the linked list stands for the
  -- commands that are left, the last ones of `xs`
  pub data Refines (xs : List (Command × F))
      : Run (Step h env sys) → Run (Step h env sys × Queued) → Type 0 where
    both_fault : (e : Fault) → Refines xs (fault e) (fault e)
    both_end :
        (step : Step h env sys) (hq : Queued) (ran left : List (Command × F))
        → xs ≡ ran ++ left
        → Shows Command F hq.0 hq.1 left
        → Refines xs (ok step) (ok (step, hq))

  Refines-cons :
      (x : Command × F) (xs : List (Command × F)) (run : Run (Step h env sys))
      (run' : Run (Step h env sys × Queued))
      → Refines xs run run'
      → Refines (x ∷ xs) run run'
  Refines-cons x xs run run' (both_fault e) = both_fault e
  Refines-cons x xs run run' (both_end step hq ran left split shows) =
      both_end step hq (x ∷ ran) left (ap (λ ys. x ∷ ys) split) shows

  round-Refines :
      (x : Command × F) (xs : List (Command × F)) (hq : Queued) (run : Run (Step h env sys))
      (k : Frame h env sys → Run (Step h env sys))
      (again : Frame h env sys → Queued → Run (Step h env sys × Queued))
      → Shows Command F hq.0 hq.1 xs
      → ((f : Frame h env sys) → Refines xs (k f) (again f hq))
      → Refines (x ∷ xs) (run >>= λ step. then_step h env sys step k) (run >>= next_round again hq)
  round-Refines x xs hq (fault e) k again shows later = both_fault e
  round-Refines x xs hq (ok (on f)) k again shows later =
      Refines-cons x xs (k f) (again f hq) (later f)
  round-Refines x xs hq (ok (over done fg)) k again shows later =
      both_end (over done fg) hq (x ∷ []) xs refl shows

  -- On a linked list that stands for commands with their free functions, the loop that pops a command
  -- in each round reaches the undefined behaviour or ends in the step that the loop over the list of
  -- these commands does. Where it ends, the linked list stands for the commands behind those that were
  -- popped: an early end leaves them in the queue.
  pub run_queued-Refines :
      (x : Fixed h env sys) (i : ℕ) (xs : List (Command × F)) (f : Frame h env sys) (hq : Queued)
      → Shows Command F hq.0 hq.1 xs
      → Refines xs
          (run_commands h env sys x i (map (λ (cmd, _). cmd) xs) f)
          (run_queued x i (length xs) f hq)
  unfolding run_queued run_commands
  run_queued-Refines x i [] f hq shows = both_end (on f) hq [] [] refl shows
  run_queued-Refines x i ((cmd, free_node) ∷ xs) f (heap, q) shows =
      let ((item, hq), popped, first, shows') =
        queue_pop-Shows Command F heap q ((cmd, free_node) ∷ xs) shows in
      let counted : hq.1.count ≡ length (map (λ (cmd, _). cmd) xs) =
        count-length Command F hq.0 hq.1 xs shows' ∙ sym (length-map xs) in
      rw (popped, first, ← counted)
        (round-Refines (cmd, free_node) xs hq (run_command h env sys x i cmd hq.1.count f)
          (run_commands h env sys x (i + 1) (map (λ (c, _). c) xs))
          (run_queued x (i + 1) (length xs)) shows'
          (λ g. run_queued-Refines x (i + 1) xs g hq shows'))
    where
      length-map : (ys : List (Command × F)) → length (map (λ (cmd, _). cmd) ys) ≡ length ys
      length-map [] = refl
      length-map (y ∷ ys) = ap (λ n. suc n) (length-map ys)
