-- ===== src/OrderBook/Uncrossed.antt =====
-- What `matchOrders` leaves: no bid reaches an ask. And where `addOrder` puts a new order.
use order_matching_engine.Base.{
  ◌≡◌, refl, ap, sym, subst, inl, inr, Bool, true, false, none, List, [], ◌∷◌, ◌++◌, arith, All,
  All-append, All-map, Bool-cases,
}
use order_matching_engine.Base.Exec.{Returns, Returns-map}
use order_matching_engine.Order.{
  Side, buy, sell, Price, Order, IsOrdered, IsStrictWeak, flip-IsStrictWeak,
}
use order_matching_engine.Report.{Report}
use order_matching_engine.Levels.{Node, Levels, nodes}
use order_matching_engine.Levels.Shape.{AtLevel, WellFormed, IsSame, before_asym, before_same_left}
use order_matching_engine.Levels.Priority.{orders, place, nodes-Above}
use order_matching_engine.OrderBook.{OrderBook, resting, greater, less, add_order, match_orders}
use order_matching_engine.OrderBook.Invariant.{IsValid}
use order_matching_engine.OrderBook.Lots.{Lots}
use order_matching_engine.OrderBook.Engine.{
  Crossings, settled, crossing, Matched, match_orders-Matched,
}
use order_matching_engine.OrderBook.Refine.{add_order-Refines}
use order_matching_engine.OrderBook.Spec
use order_matching_engine.OrderBook.Spec.{PriorityBook, view}

module _ {P : Type 0} where
  -- No order of the list comes before the price.
  abbrev pub NoneBefore : (P → P → Bool) → P → List (Order P) → Type 0
  NoneBefore before p = All (λ o. before o.price p ≡ false)

  -- Sorted by the comparator: price priority.
  abbrev pub IsSorted : (P → P → Bool) → List (Order P) → Type 0
  IsSorted before [] = Unit
  IsSorted before (o ∷ os) = NoneBefore before o.price os × IsSorted before os

-- `place` splits the list: in front stay the orders that the new one does not come before, behind
-- it those that it comes before.
pub record Placed {P : Type 0} (before : P → P → Bool) (o : Order P) (os zs : List (Order P))
    : Type 0 where
  pub ahead : List (Order P)
  pub behind : List (Order P)
  pub before_split : os ≡ ahead ++ behind
  pub after_split : zs ≡ ahead ++ o ∷ behind
  pub ahead_kept : All (λ x. before o.price x.price ≡ false) ahead
  pub behind_passed : All (λ x. before o.price x.price ≡ true) behind

All-orders :
    {P : Type 0} (Q : Order P → Type 0) (ns : List (Node P))
    → All (λ n. Q n.order) ns
    → All Q (orders ns)
All-orders Q [] a = tt
All-orders Q (n ∷ ns) a = (a.0, All-orders Q ns a.1)

module _ {P : Type 0} {before : P → P → Bool} (weak : IsStrictWeak before) where
  level_peers : (a b p : P) → IsSame before a p → IsSame before b p → before a b ≡ false
  level_peers a b p s t = ground (arith, before_same_left weak p a b (s.1, s.0))

  queue-IsSorted :
      (side : Side) (p : P) (q rest : List (Node P))
      → All (AtLevel before side p) q
      → All (λ n. before p n.order.price ≡ true) rest
      → IsSorted before (orders rest)
      → IsSorted before (orders (q ++ rest))
  queue-IsSorted side p [] rest a later s = s
  queue-IsSorted side p (n ∷ q) rest a later s =
      let k = n.order.price in
      let behind : All (λ m. before m.order.price k ≡ false) (q ++ rest) =
        All-append (λ (m : Node P). before m.order.price k ≡ false) q rest
          (All-map (AtLevel before side p) _ q (λ m t. level_peers m.order.price k p t.1 a.0.1) a.1)
          (All-map (λ (m : Node P). before p m.order.price ≡ true) _ rest
            (λ m t.
              before_asym weak k m.order.price (before_same_left weak k p m.order.price a.0.1 t))
            later) in
      (
        All-orders (λ o. before o.price k ≡ false) (q ++ rest) behind,
        queue-IsSorted side p q rest a.1 later s,
      )

  -- A shaped side is sorted by price.
  pub nodes-IsSorted :
      (side : Side) (ls : Levels P)
      → WellFormed before side ls
      → IsSorted before (orders (nodes ls))
  nodes-IsSorted side [] w = tt
  nodes-IsSorted side (l ∷ ls) w =
      queue-IsSorted side l.price l.queue (nodes ls) w.1 (nodes-Above weak side l.price ls w.3 w.2)
        (nodes-IsSorted side ls w.3)

  worse_too :
      (p k : P) (os : List (Order P))
      → before p k ≡ true
      → NoneBefore before k os
      → All (λ x. before p x.price ≡ true) os
  worse_too p k os h a =
      All-map (λ (x : Order P). before x.price k ≡ false) _ os
        (λ x t. ground (arith, weak.split p k x.price h)) a

  pub place-Placed :
      (o : Order P) (os : List (Order P))
      → IsSorted before os
      → Placed before o os (place before o os)
  place-Placed o [] s = record {
    ahead = [];
    behind = [];
    before_split = refl;
    after_split = refl;
    ahead_kept = tt;
    behind_passed = tt;
  }
  place-Placed o (x ∷ os) s = elim (Bool-cases (before o.price x.price)) [
    | inl first ↦ rw first (record {
      ahead = [];
      behind = x ∷ os;
      before_split = refl;
      after_split = refl;
      ahead_kept = tt;
      behind_passed = (first, worse_too o.price x.price os first s.0);
    })
    | inr later ↦
        let r = place-Placed o os s.1 in
        rw later (record {
          ahead = x ∷ r.ahead;
          behind = r.behind;
          before_split = ap (◌∷◌ x) r.before_split;
          after_split = ap (◌∷◌ x) r.after_split;
          ahead_kept = (later, r.ahead_kept);
          behind_passed = r.behind_passed;
        })
  ]

module _ {P : Type 0} ⦃d : Price P⦄ where
  -- Every bid is below every ask.
  abbrev pub Uncrossed : PriorityBook P → Type 0
  Uncrossed s = All (λ b. All (λ a. d.lt b.price a.price ≡ true) s.asks) s.bids

  -- `o` is put on its side of `s`, and the other side is left alone.
  abbrev pub PlacedOn : Side → Order P → PriorityBook P → PriorityBook P → Type 0
  PlacedOn buy o s t = Placed greater o s.bids t.bids × (t.asks ≡ s.asks)
  PlacedOn sell o s t = Placed less o s.asks t.asks × (t.bids ≡ s.bids)

  module _ (laws : IsOrdered P) where
    no_cross-Uncrossed :
        (bids asks : List (Order P))
        → IsSorted greater bids
        → IsSorted less asks
        → Spec.cross_fronts bids asks ≡ none
        → All (λ (b : Order P). All (λ (a : Order P). d.lt b.price a.price ≡ true) asks) bids
    no_cross-Uncrossed [] asks s t e = tt
    no_cross-Uncrossed (b ∷ bids) [] s t e =
        (tt, All-map (λ (o : Order P). greater o.price b.price ≡ false) _ bids (λ o _. tt) s.0)
    no_cross-Uncrossed (b ∷ bids) (a ∷ asks) s t e = elim (Bool-cases (d.lt b.price a.price)) [
      | inl apart ↦ (
        (apart, worse_too laws.weak b.price a.price asks apart t.0),
        All-map (λ (x : Order P). d.lt x.price a.price ≡ true) _ bids
            (λ x h. (h, worse_too laws.weak x.price a.price asks h t.0))
            (worse_too (flip-IsStrictWeak laws.weak) a.price b.price bids apart s.0),
      )
      | inr crosses ↦ absurd (ground arith)
    ]

    Crossings-end :
        {s t : PriorityBook P} {rs : List (Report P)} → Crossings s rs t → Spec.cross t ≡ none
    Crossings-end (settled e) = e
    Crossings-end (crossing e c) = Crossings-end c

    -- A valid book at the end of a crossing.
    pub Crossings-Uncrossed :
        {s : PriorityBook P} {rs : List (Report P)} (b : OrderBook P)
        → IsValid b
        → Crossings s rs (view b)
        → Uncrossed (view b)
    Crossings-Uncrossed b v c =
        no_cross-Uncrossed (orders (nodes b.bids)) (orders (nodes b.asks))
          (nodes-IsSorted (flip-IsStrictWeak laws.weak) buy b.bids v.bids_shape)
          (nodes-IsSorted laws.weak sell b.asks v.asks_shape) (Crossings-end c)

    -- After `matchOrders` on a valid book of live orders no bid price reaches an ask price.
    -- The order of the prices is `IsOrdered`.
    pub match_orders-Uncrossed :
        (b : OrderBook P)
        → IsValid b
        → Lots (resting b)
        → Returns (λ r. Uncrossed (view r.1)) (match_orders b)
    match_orders-Uncrossed b v lots =
        Returns-map (Matched b) _ (match_orders b) (match_orders-Matched laws b v lots)
          λ r m. Crossings-Uncrossed r.1 m.1 m.0

    place_on :
        (side : Side) (o : Order P) (b : OrderBook P)
        → IsValid b
        → PlacedOn side
            (record o { side = side })
            (view b)
            (Spec.add (record o { side = side }) (view b))
    place_on buy o b v =
        let weak = flip-IsStrictWeak laws.weak in
        let o' = record o { side = buy } in
        (place-Placed weak o' (view b).bids (nodes-IsSorted weak buy b.bids v.bids_shape), refl)
    place_on sell o b v = (
      place-Placed laws.weak (record o { side = sell }) (view b).asks
          (nodes-IsSorted laws.weak sell b.asks v.asks_shape),
      refl,
    )

    -- On a valid book, `addOrder` of an unused id puts the order on its own side behind every order that
    -- it does not beat on price and ahead of every order that it beats, and leaves both lists as they
    -- are otherwise.
    -- The order of the prices is `IsOrdered`.
    pub add_order-PlacedOn :
        (o : Order P) (b : OrderBook P)
        → IsValid b
        → Spec.find o.order_id (view b) ≡ none
        → PlacedOn o.side o (view b) (view (add_order o b).1)
    add_order-PlacedOn o b v new =
        let r = (add_order-Refines laws o b v new).0 in
        subst (PlacedOn o.side o (view b)) (λ i. (sym r i).1) (place_on o.side o b v)
