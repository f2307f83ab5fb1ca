-- ===== src/OrderBook/Write.antt =====
-- The in-place write `existing.quantity = newQty` of `modifyOrder`: every order keeps its place.
use order_matching_engine.Base.{
  ℕ, ◌≡◌, refl, ap, List, [], ◌∷◌, ◌++◌, arith, eqb, if◌then◌else◌, All, Bool,
}
use order_matching_engine.Base.Int.{ℤ}
use order_matching_engine.Order.{Side}
use order_matching_engine.Levels.{Node, Levels, nodes, set_quantity, write_queue, write_quantity}
use order_matching_engine.Levels.Shape.{NonEmpty, AtLevel, Above, WellFormed}
use order_matching_engine.Levels.Priority.{orders}
use order_matching_engine.OrderBook.Index.{entries, count_id, count_handle}
use order_matching_engine.OrderBook.Spec.{resize}

module _ {P : Type 0} where
  write_queue-append :
      (h : ℕ) (q : ℤ) (ns ms : List (Node P))
      → write_queue h q (ns ++ ms) ≡ write_queue h q ns ++ write_queue h q ms
  write_queue-append h q [] ms = refl
  write_queue-append h q (n ∷ ns) ms =
      ap (◌∷◌ (if eqb n.handle h then set_quantity n q else n)) (write_queue-append h q ns ms)

  pub nodes-write_quantity :
      (h : ℕ) (q : ℤ) (ls : Levels P) → nodes (write_quantity h q ls) ≡ write_queue h q (nodes ls)
  unfolding write_quantity
  nodes-write_quantity h q [] = refl
  nodes-write_quantity h q (l ∷ ls) =
      rw (write_queue-append h q l.queue (nodes ls), nodes-write_quantity h q ls)

  -- The index entries do not mention quantities.
  pub entries-write_queue :
      (h : ℕ) (q : ℤ) (ns : List (Node P)) → entries (write_queue h q ns) ≡ entries ns
  entries-write_queue h q [] = refl
  entries-write_queue h q (n ∷ ns) = ground (arith, entries-write_queue h q ns)

  -- The handle `h` and the id `i` mean the same node.
  abbrev pub Agrees : ℕ → ℕ → Node P → Type 0
  Agrees h i n = eqb n.handle h ≡ eqb n.order.order_id i

  pub Agrees-absent :
      (h i : ℕ) (ns : List (Node P))
      → count_handle h (entries ns) ≡ 0
      → count_id i (entries ns) ≡ 0
      → All (Agrees h i) ns
  Agrees-absent h i [] a b = tt
  Agrees-absent h i (n ∷ ns) a b =
      (ground arith, Agrees-absent h i ns (ground arith) (ground arith))

  pub orders-write_queue :
      (h i : ℕ) (q : ℤ) (ns : List (Node P))
      → All (Agrees h i) ns
      → orders (write_queue h q ns) ≡ resize i q (orders ns)
  orders-write_queue h i q [] a = refl
  orders-write_queue h i q (n ∷ ns) a = rw a.0 (ground (arith, orders-write_queue h i q ns a.1))

  write_queue-AtLevel :
      (before : P → P → Bool) (side : Side) (p : P) (h : ℕ) (q : ℤ) (ns : List (Node P))
      → All (AtLevel before side p) ns
      → All (AtLevel before side p) (write_queue h q ns)
  write_queue-AtLevel before side p h q [] a = tt
  write_queue-AtLevel before side p h q (n ∷ ns) a =
      (ground arith, write_queue-AtLevel before side p h q ns a.1)

  write_queue-NonEmpty :
      (h : ℕ) (q : ℤ) (ns : List (Node P)) → NonEmpty ns → NonEmpty (write_queue h q ns)
  write_queue-NonEmpty h q (n ∷ ns) e = tt
  write_queue-NonEmpty h q [] e = e

  write_quantity-Above :
      (before : P → P → Bool) (p : P) (h : ℕ) (q : ℤ) (ls : Levels P)
      → All (Above before p) ls
      → All (Above before p) (write_quantity h q ls)
  unfolding write_quantity
  write_quantity-Above before p h q [] a = tt
  write_quantity-Above before p h q (l ∷ ls) a = (a.0, write_quantity-Above before p h q ls a.1)

  pub write_quantity-WellFormed :
      (before : P → P → Bool) (side : Side) (h : ℕ) (q : ℤ) (ls : Levels P)
      → WellFormed before side ls
      → WellFormed before side (write_quantity h q ls)
  unfolding write_quantity
  write_quantity-WellFormed before side h q [] w = tt
  write_quantity-WellFormed before side h q (l ∷ ls) w = (
    write_queue-NonEmpty h q l.queue w.0,
    write_queue-AtLevel before side l.price h q l.queue w.1,
    write_quantity-Above before l.price h q ls w.2,
    write_quantity-WellFormed before side h q ls w.3,
  )
