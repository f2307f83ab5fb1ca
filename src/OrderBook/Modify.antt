-- ===== src/OrderBook/Modify.antt =====
-- `modifyOrder` against the abstract book: what it prints and leaves.
use order_matching_engine.Base.{
  ℕ, ◌≡◌, refl, ap, ◌∙◌, subst, inl, inr, ◌&&◌, List, [], ◌∷◌, arith, All, All-split, Bool-cases,
  Option-cases, map-append, nat_key,
}
use order_matching_engine.Base.Exec.{Returns, Returns->>=}
use order_matching_engine.Base.Int.{ℤ, ltb_ℤ}
use order_matching_engine.Base.Dict.{Dict, lookup, erase}
use order_matching_engine.Order.{buy, sell, Price, Order, IsOrdered}
use order_matching_engine.Report.{modified_in_place, modified}
use order_matching_engine.Levels.{Node, nodes}
use order_matching_engine.Levels.Priority.{orders}
use order_matching_engine.OrderBook.{
  OrderBook, OrderLocation, greater, less, resting, insert_order, modify_order, write_order,
}
use order_matching_engine.OrderBook.Index.{
  Inserted, Entry, entry, entries, Coherent, Inserted-map, All-Inserted, count_id-Inserted,
  count_handle-Inserted, drop_node-Inserted,
}
use order_matching_engine.OrderBook.Invariant.{IsValid}
use order_matching_engine.OrderBook.Remove.{TakenOut, Held, indexed-Held, not_indexed}
use order_matching_engine.OrderBook.Write.{
  Agrees, Agrees-absent, nodes-write_quantity, orders-write_queue, entries-write_queue,
  write_quantity-WellFormed,
}
use order_matching_engine.OrderBook.Spec
use order_matching_engine.OrderBook.Spec.{PriorityBook, view, find_order}
use order_matching_engine.OrderBook.Refine.{Refines, insert_order-Inserts, taken-IsValid}

module _ {P : Type 0} ⦃d : Price P⦄ where
  module _ (laws : IsOrdered P) where
    -- Only the node of the entry has its handle, and only it has its id.
    node-Agrees :
        (id : ℕ) {m : Dict ℕ (OrderLocation P)} {next : ℕ} {loc : OrderLocation P}
        (ns : List (Node P)) {rest : List (Node P)} (n : Node P)
        → Coherent m next (entries ns)
        → entry n ≡ (id, loc)
        → Inserted n rest ns
        → All (Agrees loc.it id) ns
    node-Agrees id {loc = loc} ns {rest} n c names i =
        let handle : n.handle ≡ loc.it = λ j. (names j).1.it in
        let same : n.order.order_id ≡ id = λ j. (names j).0 in
        All-Inserted (Agrees loc.it id) i (ground arith) (
          Agrees-absent loc.it id rest
            (ground (arith, count_handle-Inserted loc.it (Inserted-map entry i), c.handles loc.it))
            (ground (arith, count_id-Inserted id (Inserted-map entry i), c.ids id)))

    entries-write_order :
        (h : ℕ) (q : ℤ) (b : OrderBook P)
        → entries (resting (write_order h q b)) ≡ entries (resting b)
    entries-write_order h q b = rw (
      nodes-write_quantity h q b.bids,
      nodes-write_quantity h q b.asks,
      map-append,
      entries-write_queue h q (nodes b.bids),
      entries-write_queue h q (nodes b.asks),
      ← map-append,
    )

    -- An in-place write of the quantity of the node of `id`.
    write_refines :
        (id : ℕ) {loc : OrderLocation P} (q : ℤ) (b : OrderBook P)
        → IsValid b
        → Held id loc b
        → (view (write_order loc.it q b) ≡ Spec.reduce id q (view b))
          × IsValid (write_order loc.it q b)
    write_refines id {loc} q b v h =
        let gone = drop_node-Inserted loc.it (resting b) h.found in
        let agree =
          All-split (Agrees loc.it id) (nodes b.bids) (nodes b.asks)
            (node-Agrees id (resting b) h.node v.coherent h.names gone) in
        let bid = nodes-write_quantity loc.it q b.bids in
        let ask = nodes-write_quantity loc.it q b.asks in
        (
          λ i. record {
            bids = (ap orders bid ∙ orders-write_queue loc.it id q (nodes b.bids) agree.0) i;
            asks = (ap orders ask ∙ orders-write_queue loc.it id q (nodes b.asks) agree.1) i;
          },
          record {
            bids_shape = write_quantity-WellFormed greater buy loc.it q b.bids v.bids_shape;
            asks_shape = write_quantity-WellFormed less sell loc.it q b.asks v.asks_shape;
            coherent = rw (entries-write_order loc.it q b) v.coherent;
          },
        )

    reinserted :
        (id : ℕ) (b b' : OrderBook P) (n : Node P) (q : ℤ) (p : P) (timestamp : ℤ)
        → IsValid b
        → n.order.order_id ≡ id
        → TakenOut n b b'
        → let o : Order P = record {
          order_id = id;
          side = n.order.side;
          price = p;
          quantity = q;
          timestamp = timestamp;
        } in
          let c = record b' { order_map = erase id b'.order_map } in
          (view (insert_order o c)
            ≡ Spec.add (Spec.replacement n.order q p timestamp) (Spec.remove id (view b)))
          × IsValid (insert_order o c)
    reinserted id b b' n q p timestamp v same t =
        let (valid, new) = taken-IsValid laws n b b' v t in
        let o = Spec.replacement n.order q p timestamp in
        let c = record b' { order_map = erase n.order.order_id b'.order_map } in
        let r = insert_order-Inserts laws o c valid new in
        subst
          (λ j.
            (view (
                insert_order (record o { order_id = j })
                  (record b' { order_map = erase j b'.order_map }))
              ≡ Spec.add o (Spec.remove j (view b)))
            × IsValid (
                insert_order (record o { order_id = j })
                  (record b' { order_map = erase j b'.order_map })))
          same (r.0 ∙ ap (Spec.add o) t.abstract, r.1)

    -- On a valid book, `modifyOrder` returns what the abstract modify returns: a smaller quantity at the
    -- same price is stored in the order's place, any other change takes the order out and adds it anew
    -- behind its equals with the new timestamp, and an id that is not in the book is rejected. It never
    -- follows a dangling iterator, and the book stays valid.
    -- The order of the prices is `IsOrdered`.
    pub modify_order-Refines :
        (id : ℕ) (new_qty : ℤ) (new_price : P) (timestamp : ℤ) (b : OrderBook P)
        → IsValid b
        → Returns
            (Refines (Spec.modify id new_qty new_price timestamp (view b)))
            (modify_order id new_qty new_price timestamp b)
    unfolding modify_order
    modify_order-Refines id new_qty new_price timestamp b v =
        elim (Option-cases (lookup id b.order_map)) [
          | inl missing ↦ rw (missing, modify_order, not_indexed laws id b v missing) (refl, v)
          | inr (loc, indexed) ↦
              let h = indexed-Held laws id b v indexed in
              let o = h.node.order in
              elim (Bool-cases (d.eq new_price o.price && ltb_ℤ new_qty o.quantity)) [
                | inl smaller ↦
                    let w = write_refines id new_qty b v h in
                    rw (indexed, modify_order, h.found, h.order, smaller)
                      (λ i. (modified_in_place id o.quantity new_qty ∷ [], w.0 i), w.1)
                | inr other ↦
                    rw (indexed, modify_order, h.found, h.order, other)
                      (Returns->>= (TakenOut h.node b) _ _ _ h.removes (λ b' t.
                        let r =
                          reinserted id b b' h.node new_qty new_price timestamp v
                            (ap (λ (e : Entry P). e.0) h.names) t in
                        (λ i. (modified id o.quantity o.price new_qty new_price ∷ [], r.0 i), r.1)))
              ]
        ]
