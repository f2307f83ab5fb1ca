-- ===== src/Queue.antt =====
-- What the two queues of the repository promise to the threads that use them: the template parameter
-- `QueueType` of benchmark.cpp, with `push` and `pop` that return their flag.
pub mod Implementations
use order_matching_engine.Base.{
  ◌≡◌, ◌≢◌, ◌⊎◌, Bool, true, false, Option, none, some, List, [], ◌∷◌, ◌++◌,
}

pub record Queue (A Q : Type 0) : Type 0 where
  pub push : A → Q → Bool × Q
  pub pop : Q → Option A × Q

module _ {A Q : Type 0} where
  -- `push` appends, or refuses and keeps the items, which it does on a queue with items only.
  abbrev pub PushOk : (Q → List A → Type 0) → A → List A → Bool × Q → Type 0
  PushOk holds x xs r =
      ((r.0 ≡ true) × holds r.1 (xs ++ x ∷ [])) ⊎ ((r.0 ≡ false) × holds r.1 xs × (xs ≢ []))

  -- `pop` takes the oldest item, and fails on the empty queue only.
  abbrev pub PopOk : (Q → List A → Type 0) → List A → Option A × Q → Type 0
  PopOk holds [] r = (r.0 ≡ none) × holds r.1 []
  PopOk holds (x ∷ xs) r = (r.0 ≡ some x) × holds r.1 xs

-- A queue is first in, first out, for a relation that says which items it holds.
pub record IsFifo {A Q : Type 0} (queue : Queue A Q) (holds : Q → List A → Type 0) : Type 0 where
  pub push_ok : (x : A) (q : Q) (xs : List A) → holds q xs → PushOk holds x xs (queue.push x q)
  pub pop_ok : (q : Q) (xs : List A) → holds q xs → PopOk holds xs (queue.pop q)
