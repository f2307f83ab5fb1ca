-- ===== src/OrderBook/Remove.antt =====
-- `removeByLocation` at a location that the index gives, and `cancelOrder`.
use order_matching_engine.Base.{
  ℕ, ◌≤◌, ◌≡◌, refl, ap, ◌∙◌, sym, subst, inl, inr, none, some, List, [], ◌∷◌, ◌++◌, arith, Bool,
  All, All-append, All-map, Option-cases, map-append, nat_key,
}
use order_matching_engine.Base.Exec.{ok, ◌>>=◌, Returns, Returns->>=}
use order_matching_engine.Base.Dict.{lookup}
use order_matching_engine.Order.{Side, buy, sell, Price, IsOrdered, flip-IsStrictWeak}
use order_matching_engine.Levels.{Node, Levels, nodes, find_node, remove_at}
use order_matching_engine.Levels.Shape.{AtLevel, WellFormed}
use order_matching_engine.Levels.Priority.{
  orders, Removed, remove_at-Removed, All-find_node, find_node-append, find_node-append_some,
}
use order_matching_engine.OrderBook.{
  OrderBook, OrderLocation, greater, less, resting, remove_by_location,
}
use order_matching_engine.OrderBook.Index.{
  Inserted, Entry, entry, entries, count_id, drop_node-Inserted, Inserted-append_left,
  Inserted-append_right, Inserted-map, count_id-Inserted,
}
use order_matching_engine.OrderBook.Invariant.{
  IsValid, count_id-append, locate, locate_none, drop_order_absent, drop_order-Inserted,
}
use order_matching_engine.OrderBook.Spec
use order_matching_engine.OrderBook.Spec.{PriorityBook, view, drop_order, find_order}

module _ {P : Type 0} ⦃d : Price P⦄ where
  -- The orders of a shaped side stand at its levels, so they carry its side.
  nodes-side :
      (before : P → P → Bool) (side : Side) (ls : Levels P)
      → WellFormed before side ls
      → All (λ n. n.order.side ≡ side) (nodes ls)
  nodes-side before side [] w = tt
  nodes-side before side (l ∷ ls) w =
      All-append (λ (n : Node P). n.order.side ≡ side) l.queue (nodes ls)
        (All-map (AtLevel before side l.price) _ l.queue (λ n a. a.0) w.1)
        (nodes-side before side ls w.3)

  -- `b'` is `b` without the node `n`, but for the index.
  pub record TakenOut (n : Node P) (b b' : OrderBook P) : Type 0 where
    pub bids_shape : WellFormed greater buy b'.bids
    pub asks_shape : WellFormed less sell b'.asks
    pub taken : Inserted n (resting b') (resting b)
    pub index_kept : b'.order_map ≡ b.order_map
    pub handle_kept : b'.next_handle ≡ b.next_handle
    pub stats_kept : b'.stats ≡ b.stats
    pub abstract : view b' ≡ Spec.remove n.order.order_id (view b)

  -- What the index says of an id: the node, and that `removeByLocation` takes it out.
  pub record Held (id : ℕ) (loc : OrderLocation P) (b : OrderBook P) : Type 0 where
    pub node : Node P
    pub found : find_node loc.it (resting b) ≡ some node
    pub names : entry node ≡ (id, loc)
    pub order : Spec.find id (view b) ≡ some node.order
    pub removes : Returns (TakenOut node b) (remove_by_location loc b)

  -- A node stands alone with its id, on its own side and on the other.
  alone_left :
      {n : Node P} {xs zs : List (Node P)} (ys : List (Node P))
      → Inserted n xs zs
      → count_id n.order.order_id (entries (zs ++ ys)) ≤ 1
      → (count_id n.order.order_id (entries xs) ≡ 0) × (count_id n.order.order_id (entries ys) ≡ 0)
  alone_left {n} {xs} {zs} ys i h =
      let id = n.order.order_id in
      ground (
        arith,
        map-append entry zs ys,
        count_id-append id (entries zs) (entries ys),
        count_id-Inserted id (Inserted-map entry i),
      )

  alone_right :
      {n : Node P} {xs zs : List (Node P)} (ys : List (Node P))
      → Inserted n xs zs
      → count_id n.order.order_id (entries (ys ++ zs)) ≤ 1
      → (count_id n.order.order_id (entries xs) ≡ 0) × (count_id n.order.order_id (entries ys) ≡ 0)
  alone_right {n} {xs} {zs} ys i h =
      let id = n.order.order_id in
      ground (
        arith,
        map-append entry ys zs,
        count_id-append id (entries ys) (entries zs),
        count_id-Inserted id (Inserted-map entry i),
      )

  remove_by_location-buy :
      (loc : OrderLocation P) (b : OrderBook P)
      → loc.side ≡ buy
      → remove_by_location loc b
        ≡ (remove_at greater loc.price loc.it b.bids >>= λ levels. ok (record b { bids = levels }))
  unfolding remove_by_location
  remove_by_location-buy loc b e = rw (e, remove_by_location)

  remove_by_location-sell :
      (loc : OrderLocation P) (b : OrderBook P)
      → loc.side ≡ sell
      → remove_by_location loc b
        ≡ (remove_at less loc.price loc.it b.asks >>= λ levels. ok (record b { asks = levels }))
  unfolding remove_by_location
  remove_by_location-sell loc b e = rw (e, remove_by_location)

  module _ (laws : IsOrdered P) where
    removes_bid :
        (n : Node P) (b : OrderBook P)
        → IsValid b
        → find_node n.handle (nodes b.bids) ≡ some n
        → Returns (TakenOut n b) (remove_by_location (entry n).1 b)
    removes_bid n b v e =
        let side =
          All-find_node (λ m. m.order.side ≡ buy) n.handle (nodes b.bids)
            (nodes-side greater buy b.bids v.bids_shape) e in
        let gone = drop_node-Inserted n.handle (nodes b.bids) e in
        let alone = alone_left (nodes b.asks) gone (v.coherent.ids n.order.order_id) in
        rw (remove_by_location-buy (entry n).1 b side) (
          Returns->>= (Removed greater buy n.handle b.bids) (TakenOut n b) _ _
            (remove_at-Removed (flip-IsStrictWeak laws.weak) buy n.handle n b.bids v.bids_shape e)
            (λ levels r. record {
              bids_shape = r.shape;
              asks_shape = v.asks_shape;
              taken = rw r.exact (Inserted-append_left (nodes b.asks) gone);
              index_kept = refl;
              handle_kept = refl;
              stats_kept = refl;
              abstract = λ i. record {
                bids =
                    (ap orders r.exact
                        ∙ sym (drop_order-Inserted n.order.order_id gone refl alone.0))
                      i;
                asks = sym (drop_order_absent n.order.order_id (nodes b.asks) alone.1) i;
              };
            }))

    removes_ask :
        (n : Node P) (b : OrderBook P)
        → IsValid b
        → find_node n.handle (nodes b.asks) ≡ some n
        → Returns (TakenOut n b) (remove_by_location (entry n).1 b)
    removes_ask n b v e =
        let side =
          All-find_node (λ m. m.order.side ≡ sell) n.handle (nodes b.asks)
            (nodes-side less sell b.asks v.asks_shape) e in
        let gone = drop_node-Inserted n.handle (nodes b.asks) e in
        let alone = alone_right (nodes b.bids) gone (v.coherent.ids n.order.order_id) in
        rw (remove_by_location-sell (entry n).1 b side) (
          Returns->>= (Removed less sell n.handle b.asks) (TakenOut n b) _ _
            (remove_at-Removed laws.weak sell n.handle n b.asks v.asks_shape e)
            (λ levels r. record {
              bids_shape = v.bids_shape;
              asks_shape = r.shape;
              taken = rw r.exact (Inserted-append_right (nodes b.bids) gone);
              index_kept = refl;
              handle_kept = refl;
              stats_kept = refl;
              abstract = λ i. record {
                bids = sym (drop_order_absent n.order.order_id (nodes b.bids) alone.1) i;
                asks =
                    (ap orders r.exact
                        ∙ sym (drop_order-Inserted n.order.order_id gone refl alone.0))
                      i;
              };
            }))

    removes :
        (n : Node P) (b : OrderBook P)
        → IsValid b
        → find_node n.handle (resting b) ≡ some n
        → Returns (TakenOut n b) (remove_by_location (entry n).1 b)
    removes n b v e = elim (Option-cases (find_node n.handle (nodes b.bids))) [
      | inl off ↦
          removes_ask n b v
            (sym (find_node-append n.handle (nodes b.bids) (nodes b.asks) off).0 ∙ e)
      | inr (m, on) ↦
          removes_bid n b v
            (on ∙ sym (find_node-append_some n.handle (nodes b.bids) (nodes b.asks) on) ∙ e)
    ]

    -- An id in the index has its order in the book, and `removeByLocation` takes exactly it out.
    pub indexed-Held :
        (id : ℕ) {loc : OrderLocation P} (b : OrderBook P)
        → IsValid b
        → lookup id b.order_map ≡ some loc
        → Held id loc b
    indexed-Held id {loc} b v e =
        let r = locate id (resting b) v.coherent.handles (sym (v.coherent.index id) ∙ e) in
        let at : (entry r.node).1 ≡ loc = ap (λ (e : Entry P). e.1) r.names in
        record {
          node = r.node;
          found = r.found;
          names = r.names;
          order = rw (← map-append) r.order;
          removes =
              subst (λ l. Returns (TakenOut r.node b) (remove_by_location l b)) at
                (removes r.node b v
                  (ap (λ (l : OrderLocation P). find_node l.it (resting b)) at ∙ r.found));
        }

    pub not_indexed :
        (id : ℕ) (b : OrderBook P)
        → IsValid b
        → lookup id b.order_map ≡ none
        → Spec.find id (view b) ≡ none
    not_indexed id b v e =
        rw (← map-append) (locate_none id (resting b) (sym (v.coherent.index id) ∙ e))
