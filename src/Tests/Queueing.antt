-- ===== src/Tests/Queueing.antt =====
-- A queue of two items, as in tests/test_queue.c.
use redshell.Base.{◌≡◌, refl, Option, none, some, [], ◌∷◌, ℕ, ok, arith}
use redshell.Queue.Fifo.{Shows, shows_some, queue_insert-Shows, queue_pop-Shows, queue_free-Shows}
use redshell.Queue.Roundtrip.{insert_all, pop_all, pop_all-insert_all}
use redshell.Queue.{Heap, Queue, queue_new, queue_insert, queue_pop, queue_free, set}

abbrev no_nodes : Heap ℕ ℕ
no_nodes = λ a. none

abbrev one_node : Heap ℕ ℕ
one_node = set ℕ ℕ no_nodes 40 (some (record { data_of = 7; next = none; free_function = 1 }))

abbrev one_item : Queue ℕ ℕ
one_item = record { count = 1; head = some 40; tail = some 40 }

one_item-Shows : Shows ℕ ℕ one_node one_item ((7, 1) ∷ [])
unfolding set
one_item-Shows = shows_some [] 40 (7, 1) (some 40) 1 _ refl refl refl refl tt tt

queue_insert-Shows_example :
    (r : Heap ℕ ℕ × Queue ℕ ℕ) × (queue_insert ℕ ℕ one_node one_item 12 8 1 ≡ ok r)
    × Shows ℕ ℕ r.0 r.1 ((7, 1) ∷ (8, 1) ∷ [])
unfolding set
queue_insert-Shows_example =
    queue_insert-Shows ℕ ℕ one_node one_item ((7, 1) ∷ []) 12 8 1 one_item-Shows refl (omega arith)

queue_pop-Shows_example :
    (r : Option ℕ × (Heap ℕ ℕ × Queue ℕ ℕ)) × (queue_pop ℕ ℕ one_node one_item ≡ ok r)
    × (r.0 ≡ some 7)
    × Shows ℕ ℕ r.1.0 r.1.1 []
queue_pop-Shows_example = queue_pop-Shows ℕ ℕ one_node one_item ((7, 1) ∷ []) one_item-Shows

queue_free-Shows_example : (h : Heap ℕ ℕ) × (queue_free ℕ ℕ one_node one_item ≡ ok ((1, 7) ∷ [], h))
queue_free-Shows_example = queue_free-Shows ℕ ℕ one_node one_item ((7, 1) ∷ []) one_item-Shows

pop_all-insert_all_example :
    (h' h'' : Heap ℕ ℕ) × (q : Queue ℕ ℕ) × (insert_all ℕ ℕ
        ((40, (7, 1)) ∷ (56, (8, 1)) ∷ [])
        no_nodes
        (queue_new ℕ ℕ)
      ≡ ok (h', q))
    × (q.count ≡ 2)
    × (pop_all ℕ ℕ h' q ≡ ok (some 7 ∷ some 8 ∷ [], (h'', queue_new ℕ ℕ)))
pop_all-insert_all_example =
    pop_all-insert_all ℕ ℕ ((40, (7, 1)) ∷ (56, (8, 1)) ∷ []) no_nodes
      (((omega arith), tt), (tt, tt)) (refl, (refl, tt)) (omega arith)
