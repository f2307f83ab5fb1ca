-- ===== src/Levels.antt =====
-- One side of an order book (orderbook.h): `std::map<double, std::list<Order>, Compare>`, as the list
-- of its price levels in the order of the comparator. A list node has a handle, which stands for the
-- `std::list` iterator to it.
pub mod Shape
pub mod Priority
use order_matching_engine.Base.{
  ℕ, Bool, Option, none, some, List, [], ◌∷◌, ◌++◌, eqb, if◌then◌else◌,
}
use order_matching_engine.Base.Exec.{Exec, ok, undefined, ◌>>=◌, deref}
use order_matching_engine.Base.Int.{ℤ}
use order_matching_engine.Order.{Order}

pub record Node (P : Type 0) : Type 0 where
  pub handle : ℕ
  pub order : Order P
  pub open order use *

pub record Level (P : Type 0) : Type 0 where
  pub price : P
  pub queue : List (Node P)

abbrev pub Levels : Type 0 → Type 0
Levels P = List (Level P)

module _ {P : Type 0} where
  -- All nodes of a side, in priority order.
  abbrev pub nodes : Levels P → List (Node P)
  nodes [] = []
  nodes (l ∷ ls) = l.queue ++ nodes ls

  -- `*it`
  abbrev pub find_node : ℕ → List (Node P) → Option (Node P)
  find_node h [] = none
  find_node h (n ∷ ns) = if eqb n.handle h then some n else find_node h ns

  -- `list.erase(it)`; `none` if the iterator is not of this list.
  abbrev pub erase_at : ℕ → List (Node P) → Option (List (Node P))
  erase_at h [] = none
  erase_at h (n ∷ ns) =
      if eqb n.handle h
      then some ns
      else elim (erase_at h ns) [ none ↦ none | some rest ↦ some (n ∷ rest) ]

  -- `if (queue.empty()) map.erase(it)`, for a level whose queue is now `q`.
  abbrev pub settle : Level P → List (Node P) → Levels P → Levels P
  settle l [] ls = ls
  settle l (n ∷ q) ls = record l { queue = n ∷ q } ∷ ls

  -- `it->quantity = q`, a write through the iterator.
  abbrev pub set_quantity : Node P → ℤ → Node P
  set_quantity n q = record n { order = record n.order { quantity = q } }

  abbrev pub write_queue : ℕ → ℤ → List (Node P) → List (Node P)
  write_queue h q [] = []
  write_queue h q (n ∷ ns) = (if eqb n.handle h then set_quantity n q else n) ∷ write_queue h q ns

  unfoldable pub write_quantity : ℕ → ℤ → Levels P → Levels P
  write_quantity h q [] = []
  write_quantity h q (l ∷ ls) = record l { queue = write_queue h q l.queue } ∷ write_quantity h q ls

  module _ (before : P → P → Bool) where
    abbrev fresh_level : Node P → Level P
    fresh_level n = record { price = n.order.price; queue = n ∷ [] }

    -- `map[o.price].push_back(o)`
    unfoldable pub push_back : Node P → Levels P → Levels P
    push_back n [] = fresh_level n ∷ []
    push_back n (l ∷ ls) =
        if before n.order.price l.price
        then fresh_level n ∷ l ∷ ls
        else if before l.price n.order.price
        then l ∷ push_back n ls
        else record l { queue = l.queue ++ n ∷ [] } ∷ ls

    -- One branch of `removeByLocation`: `find`, `erase`, and the clean-up of an empty level.
    unfoldable pub remove_at : P → ℕ → Levels P → Exec (Levels P)
    remove_at p h [] = ok []
    remove_at p h (l ∷ ls) =
        if before l.price p
        then (remove_at p h ls >>= λ rest. ok (l ∷ rest))
        else if before p l.price
        then ok (l ∷ ls)
        else (deref (erase_at h l.queue) >>= λ q. ok (settle l q ls))
