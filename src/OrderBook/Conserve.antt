-- ===== src/OrderBook/Conserve.antt =====
-- What the trades of `matchOrders` add up to: quantities and statistics.
use order_matching_engine.Base.{
  ℕ, ◌+◌, ◌%◌, ◌^◌, ◌<◌, ◌≡◌, List, [], ◌∷◌, arith, length, inl, inr, All-split,
}
use order_matching_engine.Base.Exec.{Returns, Returns-map}
use order_matching_engine.Order.{Price, Order, IsOrdered}
use order_matching_engine.Report.{Report}
use order_matching_engine.Levels.{Node, nodes}
use order_matching_engine.OrderBook.{OrderBook, SymbolStats, resting, match_orders}
use order_matching_engine.OrderBook.Invariant.{IsValid}
use order_matching_engine.OrderBook.Lots.{IsLot, Lots}
use order_matching_engine.OrderBook.Turn.{count_report}
use order_matching_engine.OrderBook.Engine.{Matched, match_orders-Matched, count_reports}
use order_matching_engine.OrderBook.Spec.{PriorityBook, view}
use order_matching_engine.OrderBook.Trades.{
  volume, quantity_of, traded, OrderLots, count_report-lot, orders-Lots, TakenOff, FairRun, done,
  next, Crossings-FairRun,
}

module _ {P : Type 0} ⦃d : Price P⦄ where
  module _ (laws : IsOrdered P) where
    TakenOff-volume :
        (q : ℕ) (os left : List (Order P)) → TakenOff q os left → volume os ≡ volume left + q
    TakenOff-volume q [] left h = absurd h
    TakenOff-volume q (o ∷ os) left (inl (all, e)) = rw e (omega (arith, all))
    TakenOff-volume q (o ∷ os) left (inr (less, e)) = rw e (omega (arith, less))

    FairRun-volume :
        {s t : PriorityBook P} {rs : List (Report P)}
        → FairRun s rs t
        → (volume s.bids ≡ volume t.bids + traded rs) × (volume s.asks ≡ volume t.asks + traded rs)
    FairRun-volume done = omega arith
    FairRun-volume (next {s = s} {t = t} {r = r} f c) = omega (
      arith,
      FairRun-volume c,
      TakenOff-volume (quantity_of r) s.bids t.bids f.bids_left,
      TakenOff-volume (quantity_of r) s.asks t.asks f.asks_left,
    )

    -- The statistics after a run of trades.
    abbrev pub Counted : SymbolStats → List (Report P) → SymbolStats → Type 0
    Counted s rs s' =
        (s'.total_orders ≡ s.total_orders)
        × (s'.total_trades ≡ (s.total_trades + length rs) % 2 ^ 64)
        × (s'.total_volume ≡ (s.total_volume + traded rs) % 2 ^ 64)

    FairRun-Counted :
        {t u : PriorityBook P} {rs : List (Report P)} (s : SymbolStats)
        → FairRun t rs u
        → s.total_trades < 2 ^ 64
        → s.total_volume < 2 ^ 64
        → Counted s rs (count_reports rs s)
    FairRun-Counted s done h k = omega arith
    FairRun-Counted s (next {r = r} f c) h k =
        let one = count_report-lot r s f.lot in
        omega (arith, one, FairRun-Counted (count_report r s) c (omega arith) (omega arith))

    pub resting-OrderLots :
        (b : OrderBook P) → Lots (resting b) → OrderLots (view b).bids × OrderLots (view b).asks
    resting-OrderLots b lots =
        let split =
          All-split (λ (n : Node P). IsLot n.order.quantity) (nodes b.bids) (nodes b.asks) lots in
        (orders-Lots (nodes b.bids) split.0, orders-Lots (nodes b.asks) split.1)

    -- The trades that `matchOrders` prints, on a valid book of live orders, take it from book to book up to
    -- the one that is left. Each is between the best bid and the best ask of the book that the trades
    -- before it leave, and these cross; its positive quantity is all of one of them; its price is that of
    -- the one with the earlier timestamp (on a tie the bid's), and no worse than either limit. Both orders
    -- lose that quantity and keep their places, unless nothing of them is left; all others stay.
    -- The order of the prices is `IsOrdered`.
    pub match_orders-FairRun :
        (b : OrderBook P)
        → IsValid b
        → Lots (resting b)
        → Returns (λ r. FairRun (view b) r.0 (view r.1)) (match_orders b)
    match_orders-FairRun b v lots =
        let l = resting-OrderLots b lots in
        Returns-map (Matched b) _ (match_orders b) (match_orders-Matched laws b v lots)
          λ r m. Crossings-FairRun laws m.0 l.0 l.1

    -- On a valid book of live orders, `matchOrders` returns, the quantity that leaves the bids is the
    -- quantity that leaves the asks, and the sum of the printed trades; the statistics, where they are
    -- below 2 ^ 64 before, count the trades and add that sum, modulo 2 ^ 64, and no order is counted.
    -- The order of the prices is `IsOrdered`.
    pub match_orders-volume :
        (b : OrderBook P)
        → IsValid b
        → Lots (resting b)
        → b.stats.total_trades < 2 ^ 64
        → b.stats.total_volume < 2 ^ 64
        → Returns
            (λ r.
              (volume (view b).bids ≡ volume (view r.1).bids + traded r.0)
              × (volume (view b).asks ≡ volume (view r.1).asks + traded r.0)
              × Counted b.stats r.0 r.1.stats)
            (match_orders b)
    match_orders-volume b v lots h k =
        let l = resting-OrderLots b lots in
        Returns-map (Matched b) _ (match_orders b) (match_orders-Matched laws b v lots) λ r m.
          let run = Crossings-FairRun laws m.0 l.0 l.1 in
          let sums = FairRun-volume run in
          (sums.0, sums.1, rw m.3 (FairRun-Counted b.stats run h k))
