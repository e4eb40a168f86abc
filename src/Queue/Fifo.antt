-- ===== src/Queue/Fifo.antt =====
-- The queue as the list of its entries, front first.
use redshell.Base.{
  ℕ, suc, ◌+◌, ◌-◌, ◌<◌, ◌%◌, ◌≡◌, refl, ◌≢◌, Option, none, some, List, [], ◌∷◌, ◌++◌, map, All,
  length, length-append, ok, ap, ◌∙◌, sym, arith, ◌==◌, false,
}
use redshell.Queue.{
  Node, Heap, Queue, queue_new, set, node_there, load, link, insert_behind, queue_insert, release,
  tail_behind, queue_pop, free_nodes, queue_free, size_values,
}

module _ (D F : Type 0) where
  -- the address of a node, with what it holds
  abbrev pub Places : Type 0
  Places = List (ℕ × (D × F))

  abbrev pub node_of : D × F → Option ℕ → Node D F
  node_of x next = record { data_of = x.0; next = next; free_function = x.1 }

  -- the nodes from the pointer `p` to the pointer `q`
  abbrev pub Segment : Heap D F → Option ℕ → Places → Option ℕ → Type 0
  Segment h p [] q = p ≡ q
  Segment h p ((a, x) ∷ s) q =
      (p ≡ some a) × ((n : Option ℕ) × ((h a ≡ some (node_of x n)) × Segment h n s q))

  abbrev pub AreApart : ℕ → Places → Type 0
  AreApart a = All (λ (b, _). b ≢ a)

  -- no address stands twice
  abbrev pub AreDistinct : Places → Type 0
  AreDistinct [] = Unit
  AreDistinct ((a, _) ∷ s) = AreApart a s × AreDistinct s

  abbrev pub contents : Places → List (D × F)
  contents = map (λ (_, x). x)

  -- the list that a queue on a heap stands for
  pub data Shows (h : Heap D F) : Queue D F → List (D × F) → Type 0 where
    shows_none : Shows h (queue_new D F) []
    shows_some :
        (s : Places) (t : ℕ) (x : D × F) (head : Option ℕ) (count : ℕ) (xs : List (D × F))
        → count ≡ length s + 1
        → xs ≡ contents s ++ x ∷ []
        → Segment h head s (some t)
        → h t ≡ some (node_of x none)
        → AreDistinct s
        → AreApart t s
        → Shows h (record { count = count; head = head; tail = some t }) xs

  pub set-same : (h : Heap D F) (a : ℕ) (o : Option (Node D F)) → set D F h a o a ≡ o
  unfolding set
  set-same h a o = ground arith

  pub set-other :
      (h : Heap D F) (a : ℕ) (o : Option (Node D F)) (b : ℕ) → b ≢ a → set D F h a o b ≡ h b
  unfolding set
  set-other h a o b n = ground arith

  -- a write elsewhere
  Segment-set :
      (h : Heap D F) (a : ℕ) (o : Option (Node D F)) (p : Option ℕ) (s : Places) (q : Option ℕ)
      → AreApart a s
      → Segment h p s q
      → Segment (set D F h a o) p s q
  Segment-set h a o p [] q apart c = c
  Segment-set h a o p ((b, x) ∷ s) q apart (same, (n, (there, rest))) =
      (same, (n, (set-other h a o b apart.0 ∙ there, Segment-set h a o n s q apart.1 rest)))

  Segment-snoc :
      (h : Heap D F) (p : Option ℕ) (s : Places) (t : ℕ) (x : D × F) (q : Option ℕ)
      → Segment h p s (some t)
      → h t ≡ some (node_of x q)
      → Segment h p (s ++ (t, x) ∷ []) q
  Segment-snoc h p [] t x q c there = (c, (q, (there, refl)))
  Segment-snoc h p ((b, y) ∷ s) t x q (same, (n, (here, rest))) there =
      (same, (n, (here, Segment-snoc h n s t x q rest there)))

  AreApart-snoc :
      (a : ℕ) (s : Places) (t : ℕ) (x : D × F)
      → AreApart a s
      → t ≢ a
      → AreApart a (s ++ (t, x) ∷ [])
  AreApart-snoc a [] t x apart n = (n, tt)
  AreApart-snoc a ((b, y) ∷ s) t x apart n = (apart.0, AreApart-snoc a s t x apart.1 n)

  AreDistinct-snoc :
      (s : Places) (t : ℕ) (x : D × F)
      → AreDistinct s
      → AreApart t s
      → AreDistinct (s ++ (t, x) ∷ [])
  AreDistinct-snoc [] t x distinct apart = (tt, tt)
  AreDistinct-snoc ((b, y) ∷ s) t x distinct apart = (
    AreApart-snoc b s t x distinct.0 (λ e. apart.0 (sym e)),
    AreDistinct-snoc s t x distinct.1 apart.1,
  )

  pub other : (h : Heap D F) (a b : ℕ) (node : Node D F) → h a ≡ none → h b ≡ some node → b ≢ a
  other h a b node fresh there e =
      let clash : none ≡ some node = sym fresh ∙ ap h (sym e) ∙ there in absurd cc

  -- an address that is not allocated is none of the queue's
  fresh-AreApart :
      (h : Heap D F) (a : ℕ) (p : Option ℕ) (s : Places) (q : Option ℕ)
      → h a ≡ none
      → Segment h p s q
      → AreApart a s
  fresh-AreApart h a p [] q fresh c = tt
  fresh-AreApart h a p ((b, x) ∷ s) q fresh (same, (n, (there, rest))) =
      (other h a b (node_of x n) fresh there, fresh-AreApart h a n s q fresh rest)

  contents-snoc :
      (s : Places) (t : ℕ) (x : D × F) → contents (s ++ (t, x) ∷ []) ≡ contents s ++ x ∷ []
  contents-snoc [] t x = refl
  contents-snoc ((b, y) ∷ s) t x = ap (λ xs. y ∷ xs) (contents-snoc s t x)

  pub length-contents : (s : Places) → length (contents s) ≡ length s
  length-contents [] = refl
  length-contents ((b, y) ∷ s) = ap (λ n. suc n) (length-contents s)

  small_mod : (n : ℕ) → n < size_values → n % size_values ≡ n
  small_mod n h = omega arith

  -- On a queue that stands for a list of fewer than 2 ^ 64 - 1 entries, with an address that is not
  -- allocated, `queue_insert` returns, and the queue stands for the list with the entry behind it.
  pub queue_insert-Shows :
      (h : Heap D F) (q : Queue D F) (xs : List (D × F)) (a : ℕ) (item : D) (free_node : F)
      → Shows h q xs
      → h a ≡ none
      → length xs + 1 < size_values
      → (r : Heap D F × Queue D F) × (queue_insert D F h q a item free_node ≡ ok r)
        × Shows r.0 r.1 (xs ++ (item, free_node) ∷ [])
  unfolding queue_insert insert_behind link load node_there
  queue_insert-Shows h q xs a item free_node shows_none fresh small = (
    (_, _),
    refl,
    shows_some [] a (item, free_node) (some a) 1 _ refl refl refl (set-same h a _) tt tt,
  )
  queue_insert-Shows h q xs a item free_node
        (shows_some s t x head count _ counted listed chain there distinct apart) fresh small =
      let node = node_of (item, free_node) none in
      let h' = set D F h a (some node) in
      let last : t ≢ a = other h a t (node_of x none) fresh there in
      let at : h' t ≡ some (node_of x none) = set-other h a (some node) t last ∙ there in
      let linked = node_of x (some a) in
      let h'' = set D F h' t (some linked) in
      let q' : Queue D F = record {
        count = (count + 1) % size_values;
        head = head;
        tail = some a;
      } in
      let sizes = length-append {0} (contents s) (x ∷ []) in
      let bound : length (contents s ++ x ∷ []) + 1 < size_values = rw listed at small in
      let more = length-append {0} s ((t, x) ∷ []) in
      (
        (h'', q'),
        rw at,
        shows_some (s ++ (t, x) ∷ []) a (item, free_node) head _ _
            (small_mod (count + 1) (omega (arith, bound, length-contents s, counted))
              ∙ omega (arith, counted))
            (rw (listed, contents-snoc s t x))
            (Segment-snoc h'' head s t x (some a)
              (Segment-set h' t (some linked) head s (some t) apart (
                Segment-set h a (some node) head s (some t)
                  (fresh-AreApart h a head s (some t) fresh chain) chain))
              (set-same h' t (some linked)))
            (set-other h' t (some linked) a (λ e. last (sym e)) ∙ set-same h a (some node))
            (AreDistinct-snoc s t x distinct apart)
            (AreApart-snoc a s t x (fresh-AreApart h a head s (some t) fresh chain) last),
      )

  tail-Segment :
      (h : Heap D F) (n : Option ℕ) (s : Places) (t : ℕ)
      → Segment h n s (some t)
      → tail_behind D F n (some t) ≡ some t
  tail-Segment h n [] t c = rw c
  tail-Segment h n ((b, y) ∷ s) t c = rw c.0

  abbrev pub first_item : List (D × F) → Option D
  first_item [] = none
  first_item (x ∷ _) = some x.0

  abbrev pub behind_first : List (D × F) → List (D × F)
  behind_first [] = []
  behind_first (_ ∷ xs) = xs

  -- `queue_pop` on a queue that stands for a list returns its first item, the null pointer where
  -- there is none, and the queue stands for what is behind it.
  pub queue_pop-Shows :
      (h : Heap D F) (q : Queue D F) (xs : List (D × F))
      → Shows h q xs
      → (r : Option D × (Heap D F × Queue D F)) × (queue_pop D F h q ≡ ok r)
        × (r.0 ≡ first_item xs)
        × Shows r.1.0 r.1.1 (behind_first xs)
  unfolding queue_pop load node_there release
  queue_pop-Shows h q xs shows_none = ((none, (h, queue_new D F)), refl, refl, shows_none)
  queue_pop-Shows h q xs
        (shows_some [] t x head count _ counted listed chain there distinct apart) =
      let single : count ≡ 1 = counted in
      let step : queue_pop D F h (record { count = count; head = head; tail = some t })
          ≡ ok (some x.0, (set D F h t none, queue_new D F)) =
        rw (single, chain, there) in
      (_, step, rw listed, rw listed shows_none)
  queue_pop-Shows h q xs
        (shows_some
          ((b, y) ∷ s)
          t
          x
          head
          count
          _
          counted
          listed
          (same, (n, (here, rest)))
          there
          distinct
          apart) =
      let used : (count == 0) ≡ false = ground (arith, counted) in
      let q' : Queue D F = record {
        count = count - 1;
        head = n;
        tail = tail_behind D F n (some t);
      } in
      let step : queue_pop D F h (record { count = count; head = head; tail = some t })
          ≡ ok (some y.0, (set D F h b none, q')) =
        rw (used, same, here) in
      (
        (_, (_, q')),
        step,
        rw listed,
        rw (listed, tail-Segment h n s t rest)
            (shows_some s t x n (count - 1) (contents s ++ x ∷ []) (omega arith) refl
              (Segment-set h b none n s (some t) distinct.0 rest)
              (set-other h b none t (λ e. apart.0 (sym e)) ∙ there) distinct.1 apart.1),
      )

  abbrev pub calls_for : List (D × F) → List (F × D)
  calls_for = map (λ (item, free_node). (free_node, item))

  free_nodes-Segment :
      (s : Places) (h : Heap D F) (p : Option ℕ) (t : ℕ) (x : D × F)
      → Segment h p s (some t)
      → h t ≡ some (node_of x none)
      → AreDistinct s
      → AreApart t s
      → (h' : Heap D F) × (free_nodes D F (suc (length s)) h p
          ≡ ok (calls_for (contents s ++ x ∷ []), h'))
  unfolding free_nodes load node_there release
  free_nodes-Segment [] h p t x chain there distinct apart = (set D F h t none, rw (chain, there))
  free_nodes-Segment ((b, y) ∷ s) h p t x (same, (n, (here, rest))) there distinct apart =
      let (h', frees) =
        free_nodes-Segment s (set D F h b none) n t x
          (Segment-set h b none n s (some t) distinct.0 rest)
          (set-other h b none t (λ e. apart.0 (sym e)) ∙ there) distinct.1 apart.1 in
      (h', rw (same, here, frees))

  -- `queue_free` on a queue that stands for a list returns, and has called the free function of each
  -- entry on its item, in the list's order and once each.
  pub queue_free-Shows :
      (h : Heap D F) (q : Queue D F) (xs : List (D × F))
      → Shows h q xs
      → (h' : Heap D F) × (queue_free D F h q ≡ ok (calls_for xs, h'))
  unfolding queue_free free_nodes
  queue_free-Shows h q xs shows_none = (h, refl)
  queue_free-Shows h q xs
        (shows_some s t x head count _ counted listed chain there distinct apart) =
      let (h', frees) = free_nodes-Segment s h head t x chain there distinct apart in
      let size : count ≡ suc (length s) = omega arith in (h', rw (size, listed, frees))
