-- ===== src/SpscQueue.antt =====
-- `class SPSCQueue` of spsc_queue.h: a ring of `capacity` slots, of which one stays free. The queue's
-- memory orders make each thread's accesses atomic and ordered; a call returns its flag and the ring.
pub mod Ring
pub mod Fifo
pub mod Threads
pub mod Safety
pub mod Delivery
use order_matching_engine.Base.{
  ℕ, ◌+◌, ◌%◌, Bool, true, false, Option, none, some, List, eqb, if◌then◌else◌, get_elem?, set,
}
use order_matching_engine.Base.Int.{add_u64}

pub record SpscQueue (A : Type 0) : Type 0 where
  pub buffer : List A
  pub head : ℕ
  pub tail : ℕ

-- A fresh queue over the default-constructed slots of `std::array`.
abbrev pub fresh : {A : Type 0} → List A → SpscQueue A
fresh slots = record { buffer = slots; head = 0; tail = 0 }

module _ (capacity : ℕ) where
  -- `(i + 1) % Capacity` over `size_t`.
  abbrev pub next : ℕ → ℕ
  next i = add_u64 i 1 % capacity

  abbrev pub is_full : ℕ → ℕ → Bool
  is_full current_tail current_head = eqb (next current_tail) current_head

module _ {A : Type 0} (capacity : ℕ) where
  unfoldable pub push : A → SpscQueue A → Bool × SpscQueue A
  push item q =
      if is_full capacity q.tail q.head
      then (false, q)
      else (true, record q { buffer = set q.buffer q.tail item; tail = next capacity q.tail })

  -- The item, or `none` for the result `false`; a read outside the ring would also be `none`.
  unfoldable pub pop : SpscQueue A → Option A × SpscQueue A
  pop q =
      if eqb q.head q.tail
      then (none, q)
      else (get_elem? q.buffer q.head, record q { head = next capacity q.head })
