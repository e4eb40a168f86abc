-- ===== src/Queue.antt =====
-- src/queue.c: the linked list, on a heap from addresses to nodes. An address without a node is not
-- allocated. The address that `malloc` returns is an argument. Calls of free functions are listed.
pub mod Fifo
pub mod Roundtrip
use redshell.Base.{
  ℕ, zero, suc, ◌+◌, ◌-◌, ◌%◌, ◌^◌, Option, none, some, List, [], ◌∷◌, ◌==◌, if◌then◌else◌, Run,
  null_pointer, out_of_bounds, ok, fault, ◌>>=◌,
}

-- `size_t` has 64 bits
abbrev pub size_values : ℕ
size_values = 2 ^ 64

module _ (D F : Type 0) where
  -- `queue_node_t`
  pub record Node : Type 0 where
    pub data_of : D
    pub next : Option ℕ
    pub free_function : F

  abbrev pub Heap : Type 0
  Heap = ℕ → Option Node

  -- `queue_t`
  pub record Queue : Type 0 where
    pub count : ℕ
    pub head : Option ℕ
    pub tail : Option ℕ

  abbrev pub queue_new : Queue
  queue_new = record { count = 0; head = none; tail = none }

  unfoldable pub set : Heap → ℕ → Option Node → Heap
  set h a node j = if j == a then node else h j

  unfoldable pub node_there : Option Node → Run Node
  node_there none = fault out_of_bounds
  node_there (some node) = ok node

  unfoldable pub load : Heap → Option ℕ → Run Node
  unfolding node_there
  load h none = fault null_pointer
  load h (some a) = node_there (h a)

  -- `tail->next = node;`
  unfoldable pub link : Heap → Option ℕ → ℕ → Run Heap
  unfolding load set
  link h none a = fault null_pointer
  link h (some last) a =
      load h (some last) >>= λ node. ok (set h last (some (record node { next = some a })))

  unfoldable pub insert_behind : Heap → Queue → ℕ → Option ℕ → Run (Heap × Queue)
  unfolding link
  insert_behind h q a none =
      ok (h, record { count = (q.count + 1) % size_values; head = some a; tail = some a })
  insert_behind h q a (some last) = link h (some last) a >>= λ h'.
      ok (h', record q { count = (q.count + 1) % size_values; tail = some a })

  unfoldable pub queue_insert : Heap → Queue → ℕ → D → F → Run (Heap × Queue)
  unfolding insert_behind set
  queue_insert h q a item free_node =
      insert_behind
        (set h a (some (record { data_of = item; next = none; free_function = free_node }))) q a
        q.tail

  -- `free` of the node that the pointer leads to
  unfoldable pub release : Heap → Option ℕ → Heap
  unfolding set
  release h none = h
  release h (some a) = set h a none

  -- `if (queue->head == NULL) queue->tail = NULL;`
  abbrev pub tail_behind : Option ℕ → Option ℕ → Option ℕ
  tail_behind none tail = none
  tail_behind (some _) tail = tail

  unfoldable pub queue_pop : Heap → Queue → Run (Option D × (Heap × Queue))
  unfolding load release
  queue_pop h q =
      if q.count == 0
      then ok (none, (h, q))
      else (load h q.head >>= λ node. ok (
        some node.data_of,
        (
          release h q.head,
          record { count = q.count - 1; head = node.next; tail = tail_behind node.next q.tail },
        ),
      ))

  -- the `while` of `queueFree` with the count that is left: the calls of free functions, in order
  unfoldable pub free_nodes : ℕ → Heap → Option ℕ → Run (List (F × D) × Heap)
  unfolding load release
  free_nodes zero h head = ok ([], h)
  free_nodes (suc count) h head = do
    node ← load h head
    (calls, h') ← free_nodes count (release h head) node.next
    ok ((node.free_function, node.data_of) ∷ calls, h')

  unfoldable pub queue_free : Heap → Queue → Run (List (F × D) × Heap)
  unfolding free_nodes
  queue_free h q = free_nodes q.count h q.head
