-- ===== src/MutexQueue.antt =====
-- `class MutexQueue` of mutex_queue.h. Each call holds the lock throughout, so that the calls of any
-- number of threads happen one after the other: a history is the list of them in the order of the lock.
pub mod History
use order_matching_engine.Base.{Bool, true, Option, none, some, List, [], ◌∷◌, ◌++◌}

pub record MutexQueue (A : Type 0) : Type 0 where
  pub items : List A

module _ {A : Type 0} where
  unfoldable pub push : A → MutexQueue A → Bool × MutexQueue A
  push item q = (true, record { items = q.items ++ item ∷ [] })

  abbrev take_front : List A → Option A × MutexQueue A
  take_front [] = (none, record { items = [] })
  take_front (x ∷ xs) = (some x, record { items = xs })

  -- The item, or `none` for the result `false`.
  unfoldable pub pop : MutexQueue A → Option A × MutexQueue A
  pop q = take_front q.items
