-- ===== src/OrderBook/Refine.antt =====
-- `addOrder` and `cancelOrder` against the abstract book: what they print and leave.
use order_matching_engine.Base.{
  ℕ, ◌≡◌, refl, ap, ◌∙◌, sym, subst, inl, inr, none, some, List, [], ◌∷◌, ◌++◌, arith, Option-cases,
  map-append, nat_key,
}
use order_matching_engine.Base.Exec.{Returns, Returns->>=}
use order_matching_engine.Base.Dict.{lookup, erase}
use order_matching_engine.Order.{Side, buy, sell, Price, Order, IsOrdered, flip-IsStrictWeak}
use order_matching_engine.Report.{Report, cancelled}
use order_matching_engine.Levels.{Node, nodes, push_back}
use order_matching_engine.Levels.Shape.{push_back-WellFormed}
use order_matching_engine.Levels.Priority.{orders, orders-place_node, nodes-push_back}
use order_matching_engine.OrderBook.{
  OrderBook, OrderLocation, greater, less, resting, insert_order, add_order, cancel_order,
}
use order_matching_engine.OrderBook.Index.{
  Inserted, Entry, entry, entries, count_id, place_node-Inserted, Inserted-append_left,
  Inserted-append_right, Inserted-map, Coherent-insert, Coherent-erase, count_id-Inserted,
}
use order_matching_engine.OrderBook.Invariant.{IsValid}
use order_matching_engine.OrderBook.Remove.{TakenOut, indexed-Held, not_indexed}
use order_matching_engine.OrderBook.Spec
use order_matching_engine.OrderBook.Spec.{PriorityBook, view, find_order}

module _ {P : Type 0} ⦃d : Price P⦄ where
  -- An operation on `b` returns what `out` says, and a valid book.
  abbrev pub Refines : List (Report P) × PriorityBook P → List (Report P) × OrderBook P → Type 0
  Refines out r = ((r.0, view r.1) ≡ out) × IsValid r.1

  find_order-none-count_id :
      (id : ℕ) (ns : List (Node P))
      → find_order id (orders ns) ≡ none
      → count_id id (entries ns) ≡ 0
  find_order-none-count_id id [] e = refl
  find_order-none-count_id id (n ∷ ns) e = ground (arith, find_order-none-count_id id ns)

  pub unused :
      (id : ℕ) (b : OrderBook P)
      → Spec.find id (view b) ≡ none
      → count_id id (entries (resting b)) ≡ 0
  unused id b e = find_order-none-count_id id (resting b) (rw map-append e)

  abbrev pub Inserts : Order P → OrderBook P → Type 0
  Inserts o b = (view (insert_order o b) ≡ Spec.add o (view b)) × IsValid (insert_order o b)

  module _ (laws : IsOrdered P) where
    insert_on :
        (side : Side) (o : Order P) (b : OrderBook P)
        → IsValid b
        → count_id o.order_id (entries (resting b)) ≡ 0
        → Inserts (record o { side = side }) b
    unfolding insert_order
    insert_on buy o b v new =
        let n : Node P = record { handle = b.next_handle; order = record o { side = buy } } in
        let weak = flip-IsStrictWeak laws.weak in
        let placed = nodes-push_back weak buy n b.bids v.bids_shape in
        let put : Inserted n (resting b) (nodes (push_back greater n b.bids) ++ nodes b.asks) =
          rw placed
            (Inserted-append_left (nodes b.asks) (place_node-Inserted greater n (nodes b.bids))) in
        (
          λ i. record {
            bids = (ap orders placed ∙ orders-place_node greater n (nodes b.bids)) i;
            asks = orders (nodes b.asks);
          },
          record {
            bids_shape = push_back-WellFormed weak buy n b.bids refl v.bids_shape;
            asks_shape = v.asks_shape;
            coherent = Coherent-insert (entry n) (Inserted-map entry put) new refl v.coherent;
          },
        )
    insert_on sell o b v new =
        let n : Node P = record { handle = b.next_handle; order = record o { side = sell } } in
        let placed = nodes-push_back laws.weak sell n b.asks v.asks_shape in
        let put : Inserted n (resting b) (nodes b.bids ++ nodes (push_back less n b.asks)) =
          rw placed
            (Inserted-append_right (nodes b.bids) (place_node-Inserted less n (nodes b.asks))) in
        (
          λ i. record {
            bids = orders (nodes b.bids);
            asks = (ap orders placed ∙ orders-place_node less n (nodes b.asks)) i;
          },
          record {
            bids_shape = v.bids_shape;
            asks_shape = push_back-WellFormed laws.weak sell n b.asks refl v.asks_shape;
            coherent = Coherent-insert (entry n) (Inserted-map entry put) new refl v.coherent;
          },
        )

    -- `insertOrder` of an id that the book does not hold.
    pub insert_order-Inserts :
        (o : Order P) (b : OrderBook P)
        → IsValid b
        → count_id o.order_id (entries (resting b)) ≡ 0
        → Inserts o b
    insert_order-Inserts o b v new = insert_on o.side o b v new

    -- On a valid book, `addOrder` of an id that no resting order has prints the order, puts it in its
    -- place by price and time, keeps the rest of the book, and keeps the book valid.
    -- The order of the prices is `IsOrdered`.
    pub add_order-Refines :
        (o : Order P) (b : OrderBook P)
        → IsValid b
        → Spec.find o.order_id (view b) ≡ none
        → Refines (Spec.added_report o ∷ [], Spec.add o (view b)) (add_order o b)
    unfolding add_order
    add_order-Refines o b v new =
        let r = insert_order-Inserts o b v (unused o.order_id b new) in
        (
          λ i. (Spec.added_report o ∷ [], r.0 i),
          record {
            bids_shape = r.1.bids_shape;
            asks_shape = r.1.asks_shape;
            coherent = r.1.coherent;
          },
        )

    -- A book without the node and its index entry is valid, and the id is free.
    pub taken-IsValid :
        (n : Node P) (b b' : OrderBook P)
        → IsValid b
        → TakenOut n b b'
        → let c = record b' { order_map = erase n.order.order_id b'.order_map } in
          IsValid c × (count_id n.order.order_id (entries (resting c)) ≡ 0)
    taken-IsValid n b b' v t =
        let gone = Inserted-map entry t.taken in
        (
          record {
            bids_shape = t.bids_shape;
            asks_shape = t.asks_shape;
            coherent = Coherent-erase (entry n) gone (rw (t.index_kept, t.handle_kept) v.coherent);
          },
          ground (arith, count_id-Inserted n.order.order_id gone, v.coherent.ids n.order.order_id),
        )

    cancelled-Refines :
        (id : ℕ) (loc : OrderLocation P) (b b' : OrderBook P) (n : Node P)
        → IsValid b
        → entry n ≡ (id, loc)
        → TakenOut n b b'
        → Refines (Spec.cancel_found id (some n.order) (view b)) (
          cancelled id loc.side n.order.quantity loc.price ∷ [],
          record b' { order_map = erase id b'.order_map },
        )
    cancelled-Refines id loc b b' n v names t =
        let same : n.order.order_id ≡ id = ap (λ (e : Entry P). e.0) names in
        (
          λ i. (
            cancelled id (sym names i).1.side n.order.quantity (sym names i).1.price ∷ [],
            (t.abstract ∙ ap (λ j. Spec.remove j (view b)) same) i,
          ),
          subst (λ j. IsValid (record b' { order_map = erase j b'.order_map })) same
              (taken-IsValid n b b' v t).0,
        )

    -- On a valid book, `cancelOrder` returns what the abstract cancel returns: it takes exactly the order
    -- of the id out and prints it, or rejects an id that is not in the book. It never follows a dangling
    -- iterator, and the book stays valid.
    -- The order of the prices is `IsOrdered`.
    pub cancel_order-Refines :
        (id : ℕ) (b : OrderBook P)
        → IsValid b
        → Returns (Refines (Spec.cancel id (view b))) (cancel_order id b)
    unfolding cancel_order
    cancel_order-Refines id b v = elim (Option-cases (lookup id b.order_map)) [
      | inl missing ↦ rw (missing, cancel_order, not_indexed laws id b v missing) (refl, v)
      | inr (loc, indexed) ↦
          let h = indexed-Held laws id b v indexed in
          rw (indexed, cancel_order, h.found, h.order)
            (Returns->>= (TakenOut h.node b)
              (Refines (Spec.cancel_found id (some h.node.order) (view b))) _ _ h.removes
              (λ b' t. cancelled-Refines id loc b b' h.node v h.names t))
    ]
