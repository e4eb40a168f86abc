-- ===== src/Queue/Roundtrip.antt =====
-- The queue between `parseInput`, which fills it (src/parser.c), and `executeCommandsInQueue`, which
-- empties it (src/jobs.c).
use mathlib.Core.Path.{subst}
use mathlib.Core.List.{append_assoc, append-nil}
use redshell.Base.{
  ℕ, zero, suc, ◌+◌, ◌<◌, ◌≡◌, refl, Option, none, some, List, [], ◌∷◌, ◌++◌, map, length,
  length-append, ◌≢◌, All, IfOk, Run, ok, ◌>>=◌, ap, ◌∙◌, sym, arith,
}
use redshell.Queue.Fifo.{
  Places, contents, node_of, other, set-other, AreApart, AreDistinct, Shows, shows_none, shows_some,
  queue_insert-Shows, queue_pop-Shows, length-contents,
}
use redshell.Queue.{
  Heap, Queue, queue_new, insert_behind, link, load, node_there, set, queue_insert, queue_pop,
  size_values,
}

module _ (D F : Type 0) where
  -- the calls of `queueInsert`, with the addresses that `malloc` returns
  unfoldable pub insert_all : Places D F → Heap D F → Queue D F → Run (Heap D F × Queue D F)
  insert_all [] h q = ok (h, q)
  insert_all ((a, (item, free_node)) ∷ more) h q =
      queue_insert D F h q a item free_node >>= λ (h', q'). insert_all more h' q'

  -- the calls of `queuePop` in the loop over `n_commands`
  unfoldable pub pop_each :
      ℕ → Heap D F → Queue D F → Run (List (Option D) × (Heap D F × Queue D F))
  pop_each zero h q = ok ([], (h, q))
  pop_each (suc left) h q = do
    (item, (h', q')) ← queue_pop D F h q
    (items, ends) ← pop_each left h' q'
    ok (item ∷ items, ends)

  -- with `n_commands` read from the queue
  unfoldable pub pop_all : Heap D F → Queue D F → Run (List (Option D) × (Heap D F × Queue D F))
  unfolding pop_each
  pop_all h q = pop_each q.count h q

  pub count-length :
      (h : Heap D F) (q : Queue D F) (xs : List (D × F)) → Shows D F h q xs → q.count ≡ length xs
  count-length h q xs shows_none = refl
  count-length h q xs (shows_some s t x head count _ counted listed chain there distinct apart) =
      rw listed
        (omega (arith, counted, length-append {0} (contents D F s) (x ∷ []), length-contents D F s))

  -- not allocated
  abbrev pub AreFree : Heap D F → Places D F → Type 0
  AreFree h = All (λ (a, _). h a ≡ none)

  -- an insertion allocates its own address only
  insert-free :
      (h : Heap D F) (q : Queue D F) (xs : List (D × F)) (a : ℕ) (item : D) (free_node : F) (b : ℕ)
      → Shows D F h q xs
      → h a ≡ none
      → h b ≡ none
      → b ≢ a
      → IfOk (λ r. r.0 b ≡ none) (queue_insert D F h q a item free_node)
  unfolding queue_insert insert_behind link load node_there
  insert-free h q xs a item free_node b shows_none fresh free apart =
      set-other D F h a _ b apart ∙ free
  insert-free h q xs a item free_node b
        (shows_some s t x head count _ counted listed chain there distinct t_apart) fresh free
        apart =
      let node = node_of D F (item, free_node) none in
      let last : t ≢ a = other D F h a t (node_of D F x none) fresh there in
      let at : set D F h a (some node) t ≡ some (node_of D F x none) =
        set-other D F h a (some node) t last ∙ there in
      let elsewhere : b ≢ t = λ e. other D F h b t (node_of D F x none) free there (sym e) in
      rw at (
        set-other D F (set D F h a (some node)) t _ b elsewhere
        ∙ set-other D F h a (some node) b apart
        ∙ free)

  insert-AreFree :
      (h : Heap D F) (q : Queue D F) (xs : List (D × F)) (a : ℕ) (item : D) (free_node : F)
      (s : Places D F) (r : Heap D F × Queue D F)
      → Shows D F h q xs
      → h a ≡ none
      → queue_insert D F h q a item free_node ≡ ok r
      → AreApart D F a s
      → AreFree h s
      → AreFree r.0 s
  insert-AreFree h q xs a item free_node [] r shows fresh inserted apart free = tt
  insert-AreFree h q xs a item free_node ((b, x) ∷ s) r shows fresh inserted apart free = (
    subst (IfOk (λ r. r.0 b ≡ none)) inserted
        (insert-free h q xs a item free_node b shows fresh free.0 apart.0),
    insert-AreFree h q xs a item free_node s r shows fresh inserted apart.1 free.1,
  )

  insert_all-Shows :
      (s : Places D F) (ys : List (D × F)) (h : Heap D F) (q : Queue D F)
      → AreDistinct D F s
      → AreFree h s
      → Shows D F h q ys
      → length ys + length s < size_values
      → (r : Heap D F × Queue D F) × (insert_all s h q ≡ ok r)
        × Shows D F r.0 r.1 (ys ++ contents D F s)
  unfolding insert_all
  insert_all-Shows [] ys h q distinct free shows small = ((h, q), refl, rw append-nil shows)
  insert_all-Shows ((a, (item, free_node)) ∷ s) ys h q distinct free shows small =
      let ((h', q'), inserted, shows') =
        queue_insert-Shows D F h q ys a item free_node shows free.0 (omega arith) in
      let free' =
        insert-AreFree h q ys a item free_node s (h', q') shows free.0 inserted distinct.0 free.1 in
      let (r, rest, shows'') =
        insert_all-Shows s (ys ++ (item, free_node) ∷ []) h' q' distinct.1 free' shows'
          (omega (arith, length-append {0} ys ((item, free_node) ∷ []))) in
      (r, rw (inserted, rest), rw append_assoc at shows'')

  pop_each-Shows :
      (xs : List (D × F)) (h : Heap D F) (q : Queue D F)
      → Shows D F h q xs
      → (r : List (Option D) × (Heap D F × Queue D F)) × (pop_each (length xs) h q ≡ ok r)
        × (r.0 ≡ map (λ (item, _). some item) xs)
        × Shows D F r.1.0 r.1.1 []
  unfolding pop_each
  pop_each-Shows [] h q shows = (([], (h, q)), refl, refl, shows)
  pop_each-Shows (x ∷ xs) h q shows =
      let ((item, (h', q')), popped, first, shows') = queue_pop-Shows D F h q (x ∷ xs) shows in
      let ((items, ends), rest, same, shows'') = pop_each-Shows xs h' q' shows' in
      ((item ∷ items, ends), rw (popped, rest), rw (first, same), shows'')

  map-contents :
      (s : Places D F)
      → map (λ (item, _). some item) (contents D F s) ≡ map (λ (_, (item, _)). some item) s
  map-contents [] = refl
  map-contents ((a, x) ∷ s) = ap (λ items. some x.0 ∷ items) (map-contents s)

  empty-queue_new : (h : Heap D F) (q : Queue D F) → Shows D F h q [] → q ≡ queue_new D F
  empty-queue_new h q shows_none = refl
  empty-queue_new h q (shows_some s t x head count _ counted listed chain there distinct apart) =
      absurd (not_empty (contents D F s) (sym listed))
    where
      not_empty : (ys : List (D × F)) → ys ++ x ∷ [] ≡ [] → ⊥
      not_empty [] e = absurd cc
      not_empty (y ∷ ys) e = absurd cc

  -- Fewer than 2 ^ 64 - 1 items that are inserted into a new queue, at distinct addresses that are not
  -- allocated, are counted by the queue and are popped from it in the same order, none of them a null
  -- pointer, and the queue is then empty.
  pub pop_all-insert_all :
      (s : Places D F) (h : Heap D F)
      → AreDistinct D F s
      → AreFree h s
      → length s + 1 < size_values
      → (h' h'' : Heap D F) × (q : Queue D F) × (insert_all s h (queue_new D F) ≡ ok (h', q))
        × (q.count ≡ length s)
        × (pop_all h' q ≡ ok (map (λ (_, (item, _)). some item) s, (h'', queue_new D F)))
  unfolding pop_all
  pop_all-insert_all s h distinct free small =
      let ((h', q), inserted, shows) =
        insert_all-Shows s [] h (queue_new D F) distinct free shows_none (omega arith) in
      let ((items, (h'', q')), popped, same, shows') = pop_each-Shows (contents D F s) h' q shows in
      let empty = empty-queue_new h'' q' shows' in
      let counted = count-length h' q (contents D F s) shows in
      (
        h',
        h'',
        q,
        inserted,
        counted ∙ length-contents D F s,
        ap (λ n. pop_each n h' q) counted
            ∙ popped
            ∙ ap (λ read. ok (read, (h'', q'))) (same ∙ map-contents s)
            ∙ ap (λ left. ok (map (λ (_, (item, _)). some item) s, (h'', left))) empty,
      )
