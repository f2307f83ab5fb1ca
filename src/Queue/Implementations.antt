-- ===== src/Queue/Implementations.antt =====
-- The ring and the locked queue as such queues.
use order_matching_engine.Base.{
  ℕ, suc, ◌<◌, ◌≡◌, refl, subst, inl, inr, true, false, List, [], ◌∷◌, ◌++◌, arith, eqb, Bool-cases,
  length,
}
use order_matching_engine.Queue.{Queue, PushOk, PopOk, IsFifo}
use order_matching_engine.SpscQueue
use order_matching_engine.SpscQueue.{SpscQueue}
use order_matching_engine.SpscQueue.Ring.{Holds}
use order_matching_engine.SpscQueue.Fifo.{push-Pushed, pop-Popped}
use order_matching_engine.MutexQueue
use order_matching_engine.MutexQueue.{MutexQueue}

abbrev pub spsc_queue : {A : Type 0} → ℕ → Queue A (SpscQueue A)
spsc_queue capacity = record { push = SpscQueue.push capacity; pop = SpscQueue.pop capacity }

abbrev pub mutex_queue : {A : Type 0} → Queue A (MutexQueue A)
mutex_queue = record { push = MutexQueue.push; pop = MutexQueue.pop }

abbrev pub HasItems : {A : Type 0} → MutexQueue A → List A → Type 0
HasItems q xs = q.items ≡ xs

module _ {A : Type 0} (capacity : ℕ) where
  push-PushOk :
      (x : A) (q : SpscQueue A) (xs : List A)
      → 1 < capacity
      → Holds capacity q xs
      → PushOk (Holds capacity) x xs (SpscQueue.push capacity x q)
  push-PushOk x q xs two h =
      let p = push-Pushed capacity x xs h in
      elim (Bool-cases (eqb (suc (length xs)) capacity)) [
        | inl full ↦
            let e : SpscQueue.push capacity x q ≡ (false, q) = rw full at p in
            rw e (inr (refl, h, λ empty. nonempty xs full empty))
        | inr room ↦
            let k : (SpscQueue.push capacity x q).0 ≡ true
                × Holds capacity (SpscQueue.push capacity x q).1 (xs ++ x ∷ []) =
              rw room at p in
            inl k
      ]
    where
      nonempty : (xs : List A) → eqb (suc (length xs)) capacity ≡ true → xs ≡ [] → ⊥
      nonempty [] full e = ground (arith, two)
      nonempty (y ∷ ys) full e = absurd (cc)

  pop-PopOk :
      (q : SpscQueue A) (xs : List A)
      → Holds capacity q xs
      → PopOk (Holds capacity) xs (SpscQueue.pop capacity q)
  pop-PopOk q [] h = rw (pop-Popped capacity [] h) (refl, h)
  pop-PopOk q (x ∷ xs) h = pop-Popped capacity (x ∷ xs) h

  -- A ring with at least two slots.
  pub spsc_queue-IsFifo : 1 < capacity → IsFifo (spsc_queue {A = A} capacity) (Holds capacity)
  spsc_queue-IsFifo two = record {
    push_ok = λ x q xs h. push-PushOk x q xs two h;
    pop_ok = pop-PopOk;
  }

locked_pop-PopOk :
    {A : Type 0} (xs : List A) → PopOk HasItems xs (MutexQueue.pop (record { items = xs }))
unfolding MutexQueue.pop
locked_pop-PopOk [] = (refl, refl)
locked_pop-PopOk (x ∷ xs) = (refl, refl)

pub mutex_queue-IsFifo : {A : Type 0} → IsFifo (mutex_queue {A = A}) HasItems
unfolding MutexQueue.push
mutex_queue-IsFifo = record {
  push_ok = λ x q xs h. inl (refl, λ i. h i ++ x ∷ []);
  pop_ok =
      λ q xs h. subst (λ ys. PopOk HasItems ys (MutexQueue.pop q)) h (locked_pop-PopOk q.items);
}
