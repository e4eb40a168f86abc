-- ===== src/Jobs/Pipelines.antt =====
-- The pipes of a pipeline: which ends the children take.
use redshell.Alias.Table.{HashTable}
use redshell.Alias.{Alias}
use redshell.Base.{
  ℕ, zero, suc, ◌+◌, ◌-◌, ◌*◌, ◌<◌, ◌≡◌, refl, true, false, Option, none, some, arith, ltb, ok, ◌∙◌,
  ap, sym, lt→ltb,
}
use redshell.Builtins.{Environment}
use redshell.Command.{Command, is_pipe}
use redshell.Jobs.{System, Pipes, pipe_end, input_end, store_pipe, open_pipes, child_input}

module _ (h : HashTable Alias) (env : Environment) (sys : System env) where
  open env use {State}
  open sys use {dup2, pipe}

  -- what the call number `k` of `pipe` from a state on makes
  unfoldable pub pipe_made : ℕ → State → Option (ℕ × ℕ)
  pipe_made zero s = (pipe s).0
  pipe_made (suc k) s = pipe_made k (pipe s).1

  open_pipes-size :
      (pairs j : ℕ) (p : Pipes h env sys) (s : State)
      → (open_pipes h env sys pairs j p s).0.size ≡ p.size
  unfolding open_pipes
  open_pipes-size zero j p s = refl
  open_pipes-size (suc pairs) j p s = open_pipes-size pairs (j + 2) _ (pipe s).1

  store_pipe-below :
      (cells : ℕ → Option ℕ) (j : ℕ) (made : Option (ℕ × ℕ)) (i : ℕ)
      → i < j
      → store_pipe h env sys cells j made i ≡ cells i
  store_pipe-below cells j none i less = refl
  store_pipe-below cells j (some (a, b)) i less = ground arith

  open_pipes-below :
      (pairs j : ℕ) (p : Pipes h env sys) (s : State) (i : ℕ)
      → i < j
      → (open_pipes h env sys pairs j p s).0.cells i ≡ p.cells i
  unfolding open_pipes
  open_pipes-below zero j p s i less = refl
  open_pipes-below (suc pairs) j p s i less =
      open_pipes-below pairs (j + 2) _ (pipe s).1 i (omega arith)
      ∙ store_pipe-below p.cells j (pipe s).0 i less

  stored :
      (cells : ℕ → Option ℕ) (j a b : ℕ)
      → (store_pipe h env sys cells j (some (a, b)) j ≡ some a)
        × (store_pipe h env sys cells j (some (a, b)) (j + 1) ≡ some b)
  stored cells j a b = (ground arith, ground arith)

  open_pipes-pair :
      (pairs j : ℕ) (p : Pipes h env sys) (s : State) (k a b : ℕ)
      → k < pairs
      → pipe_made k s ≡ some (a, b)
      → ((open_pipes h env sys pairs j p s).0.cells (j + 2 * k) ≡ some a)
        × ((open_pipes h env sys pairs j p s).0.cells (j + 2 * k + 1) ≡ some b)
  unfolding open_pipes pipe_made
  open_pipes-pair zero j p s k a b less made = absurd (omega arith)
  open_pipes-pair (suc pairs) j p s zero a b less made =
      let both = stored p.cells j a b in
      let first : j + 2 * 0 ≡ j = omega arith in
      rw
        (
          first,
          open_pipes-below pairs (j + 2)
              (record p { cells = store_pipe h env sys p.cells j (pipe s).0 }) (pipe s).1 j
              (omega arith),
          open_pipes-below pairs (j + 2)
              (record p { cells = store_pipe h env sys p.cells j (pipe s).0 }) (pipe s).1 (j + 1)
              (omega arith),
          made,
        )
        both
  open_pipes-pair (suc pairs) j p s (suc k) a b less made =
      let later : j + 2 * suc k ≡ (j + 2) + 2 * k = omega arith in
      rw later (
        open_pipes-pair pairs (j + 2)
          (record p { cells = store_pipe h env sys p.cells j (pipe s).0 }) (pipe s).1 k a b
          (omega arith) made)

  -- Of two neighbours in a pipeline, the first not the queue's first and the second the pipeline's
  -- last, the call of `pipe` for the pair between them having succeeded: the child of the first takes
  -- as its output the write end of the pipe whose read end the child of the second takes as its
  -- input, and no access leaves the array.
  pub child_input-neighbours :
      (p : Pipes h env sys) (n i a b : ℕ) (cmd next_cmd : Command) (s u v : State)
      → p.size ≡ 2 * (n - 1)
      → i + 2 < n
      → is_pipe cmd.connection_mask ≡ true
      → is_pipe next_cmd.connection_mask ≡ false
      → pipe_made (i + 1) s ≡ some (a, b)
      → ((from : Option ℕ) × (child_input h env sys
              (open_pipes h env sys (n - 1) 0 p s).0
              n
              (suc i)
              cmd
              u
            ≡ ok (dup2 (dup2 u from 0) (some b) 1)))
        × (child_input h env sys (open_pipes h env sys (n - 1) 0 p s).0 n (suc (suc i)) next_cmd v
            ≡ ok (dup2 v (some a) 0))
  unfolding child_input input_end pipe_end
  child_input-neighbours p n i a b cmd next_cmd s u v size small piped last made =
      let p' = (open_pipes h env sys (n - 1) 0 p s).0 in
      let pair = open_pipes-pair (n - 1) 0 p s (i + 1) a b (omega arith) made in
      let size' = open_pipes-size (n - 1) 0 p s ∙ size in
      let read : 0 + 2 * (i + 1) ≡ 2 * suc i = omega arith in
      let written : 0 + 2 * (i + 1) + 1 ≡ 2 * suc i + 1 = omega arith in
      let at_read : p'.cells (2 * suc i) ≡ some a = ap p'.cells (sym read) ∙ pair.0 in
      let at_write : p'.cells (2 * suc i + 1) ≡ some b = ap p'.cells (sym written) ∙ pair.1 in
      let in_from : ltb (2 * i) p'.size ≡ true = lt→ltb _ _ (omega (arith, size')) in
      let in_read : ltb (2 * suc i) p'.size ≡ true = lt→ltb _ _ (omega (arith, size')) in
      let in_write : ltb (2 * suc i + 1) p'.size ≡ true = lt→ltb _ _ (omega (arith, size')) in
      let several : ltb 1 n ≡ true = lt→ltb _ _ (omega arith) in
      (
        (p'.cells (2 * i), rw (piped, in_from, in_write, at_write)),
        rw (last, several, in_read, at_read),
      )
