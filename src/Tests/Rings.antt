-- ===== src/Tests/Rings.antt =====
-- The theorems of the queues, on a ring of three slots and on a locked queue.
use order_matching_engine.Base.{
  ℕ, ◌<◌, ◌≡◌, refl, ◌++◌, some, List, [], ◌∷◌, arith, length, get_elem?,
}
use order_matching_engine.SpscQueue.{SpscQueue, fresh, push, pop}
use order_matching_engine.SpscQueue.Ring.{Holds}
use order_matching_engine.SpscQueue.Fifo.{fresh-Holds, Pushed, push-Pushed, Popped, pop-Popped}
use order_matching_engine.SpscQueue.Threads.{
  Producer, System, initial, load_tail, find_room, write_slot, store_tail, load_head, find_item,
  Reach, here, later, has_item,
}
use order_matching_engine.SpscQueue.Delivery.{Reach-fifo, Reach-readable}
use order_matching_engine.MutexQueue.History.{push_of, pop_of, pushed, run, run-fifo}

abbrev slots : List ℕ
slots = 0 ∷ 0 ∷ 0 ∷ []

slots-Holds : Holds 3 (fresh slots) []
slots-Holds = fresh-Holds 3 slots (omega arith) (omega arith) refl

abbrev with_seven : SpscQueue ℕ
with_seven = (push 3 7 (fresh slots)).1

with_seven-Holds : Holds 3 with_seven (7 ∷ [])
with_seven-Holds = (push-Pushed 3 7 [] slots-Holds).1

push-Pushed_example : Pushed 3 8 (7 ∷ []) with_seven (push 3 8 with_seven)
push-Pushed_example = push-Pushed 3 8 (7 ∷ []) with_seven-Holds

pop-Popped_example : Popped 3 (7 ∷ []) with_seven (pop 3 with_seven)
pop-Popped_example = pop-Popped 3 (7 ∷ []) with_seven-Holds

-- The producer has pushed an item, and the consumer has seen it.
abbrev seen : System ℕ
seen = record {
  queue = record { buffer = 7 ∷ 0 ∷ 0 ∷ []; head = 0; tail = 1 };
  producer = Producer.idle;
  consumer = has_item 0;
  pushed = 7 ∷ [];
  popped = [];
}

Reach-seen : Reach 3 (initial slots) seen
Reach-seen =
    later
      (later
        (later
          (later (later (later here (load_tail 7 refl refl)) (find_room 7 0 refl refl refl))
            (write_slot 7 0 refl refl))
          (store_tail 7 0 refl refl))
        (load_head refl refl))
      (find_item 0 refl refl refl)

Reach-fifo_example : (xs : List ℕ) × (seen.pushed ≡ seen.popped ++ xs) × (length xs < 3)
Reach-fifo_example = Reach-fifo 3 slots (omega arith) (omega arith) refl Reach-seen

Reach-readable_example :
    (x : ℕ) × (xs : List ℕ) × (get_elem? seen.queue.buffer 0 ≡ some x)
    × (seen.pushed ≡ seen.popped ++ x ∷ xs)
Reach-readable_example = Reach-readable 3 slots 0 (omega arith) (omega arith) refl Reach-seen refl

run-fifo_example :
    let r =
      run {A = ℕ}
        (push_of 1 ∷ pop_of ∷ pop_of ∷ push_of 2 ∷ pop_of ∷ [])
        (record { items = 5 ∷ [] }) in
    5 ∷ pushed {A = ℕ} (push_of 1 ∷ pop_of ∷ pop_of ∷ push_of 2 ∷ pop_of ∷ []) ≡ r.0 ++ r.1.items
run-fifo_example = run-fifo {A = ℕ} (push_of 1 ∷ pop_of ∷ pop_of ∷ push_of 2 ∷ pop_of ∷ []) (5 ∷ [])
