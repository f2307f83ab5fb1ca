-- ===== src/MutexQueue/History.antt =====
-- Any history of calls of the locked queue is first in, first out.
use order_matching_engine.Base.{
  ◌≡◌, ap, ◌∙◌, sym, Option, none, some, List, [], ◌∷◌, ◌++◌, append_assoc, append-nil,
}
use order_matching_engine.MutexQueue.{MutexQueue, push, pop}

pub data Call (A : Type 0) : Type 0 where
  push_of : (item : A) → Call A
  pop_of : Call A

module _ {A : Type 0} where
  abbrev delivered : Option A → List A → List A
  delivered none xs = xs
  delivered (some x) xs = x ∷ xs

  -- The items that a history pushes, and those that its calls of `pop` deliver, with the last queue.
  abbrev pub pushed : List (Call A) → List A
  pushed [] = []
  pushed (push_of x ∷ calls) = x ∷ pushed calls
  pushed (pop_of ∷ calls) = pushed calls

  abbrev pub run : List (Call A) → MutexQueue A → List A × MutexQueue A
  run [] q = ([], q)
  run (push_of x ∷ calls) q = run calls (push x q).1
  run (pop_of ∷ calls) q =
      let r = pop q in let rest = run calls r.1 in (delivered r.0 rest.0, rest.1)

  -- In any history of calls, by any number of threads, the items queued at first followed by the items
  -- pushed are, in order, the items that `pop` delivers followed by those still queued.
  pub run-fifo :
      (calls : List (Call A)) (items : List A)
      → let r = run calls (record { items = items }) in items ++ pushed calls ≡ r.0 ++ r.1.items
  unfolding push pop
  run-fifo [] items = append-nil items
  run-fifo (push_of x ∷ calls) items =
      sym (append_assoc items (x ∷ []) (pushed calls)) ∙ run-fifo calls (items ++ x ∷ [])
  run-fifo (pop_of ∷ calls) [] = run-fifo calls []
  run-fifo (pop_of ∷ calls) (x ∷ items) = ap (◌∷◌ x) (run-fifo calls items)
