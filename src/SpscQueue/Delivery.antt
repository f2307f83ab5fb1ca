-- ===== src/SpscQueue/Delivery.antt =====
-- What the invariant of the threads says of every reachable state: first in, first out.
use order_matching_engine.Base.{
  ℕ, ◌<◌, ◌^◌, ◌≡◌, refl, ap, ◌∙◌, some, List, [], ◌∷◌, ◌++◌, length, get_elem?,
}
use order_matching_engine.SpscQueue.{SpscQueue}
use order_matching_engine.SpscQueue.Ring.{Holds}
use order_matching_engine.SpscQueue.Threads.{has_item, System, initial, Reach, here, later}
use order_matching_engine.SpscQueue.Safety.{Inv, HasItem, initial-Inv, Step-Inv}

module _ {A : Type 0} (capacity : ℕ) where
  front :
      (q : SpscQueue A) (xs : List A)
      → Holds capacity q xs
      → HasItem capacity xs
      → (x : A) × (ys : List A) × (get_elem? q.buffer q.head ≡ some x) × (xs ≡ x ∷ ys)
  front q [] h k = absurd k
  front q (x ∷ xs) h k = (x, xs, h.items.0, refl)

  pub Reach-Inv : {s t : System A} → Inv capacity s → Reach capacity s t → Inv capacity t
  Reach-Inv v here = v
  Reach-Inv v (later r p) = Step-Inv capacity (Reach-Inv v r) p

  -- For a ring of `0 < capacity < 2 ^ 64` slots, in every state the two threads can reach by any
  -- interleaving of their atomic accesses, the items taken out so far, in the order of the calls, are a
  -- prefix of the items pushed so far, and fewer than `capacity` items are still queued: no item is
  -- lost, repeated or overtaken.
  pub Reach-fifo :
      {s : System A} (slots : List A)
      → 0 < capacity
      → capacity < 2 ^ 64
      → length slots ≡ capacity
      → Reach capacity (initial slots) s
      → (xs : List A) × (s.pushed ≡ s.popped ++ xs) × (length xs < capacity)
  Reach-fifo slots p q e r =
      let v = Reach-Inv (initial-Inv capacity slots p q e) r in (v.items, v.order, v.ring.room)

  -- A consumer that has seen the queue non-empty never reads outside the buffer: the copy of the slot
  -- at `current_head` finds the oldest item that has been pushed and not yet taken out.
  pub Reach-readable :
      {s : System A} (slots : List A) (i : ℕ)
      → 0 < capacity
      → capacity < 2 ^ 64
      → length slots ≡ capacity
      → Reach capacity (initial slots) s
      → s.consumer ≡ has_item i
      → (x : A) × (xs : List A) × (get_elem? s.queue.buffer i ≡ some x)
        × (s.pushed ≡ s.popped ++ x ∷ xs)
  Reach-readable {s} slots i p q e r c =
      let v = Reach-Inv (initial-Inv capacity slots p q e) r in
      let at : (i ≡ s.queue.head) × HasItem capacity v.items = rw c at v.consumer_ok in
      let first = front s.queue v.items v.ring at.1 in
      (first.0, first.1, rw at.0 first.2, v.order ∙ ap (λ l. s.popped ++ l) first.3)
