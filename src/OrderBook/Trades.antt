-- ===== src/OrderBook/Trades.antt =====
-- The trades of `matchOrders`: between which orders, at which price, and what they leave.
use order_matching_engine.Base.{
  ℕ, zero, suc, eqb, ◌-◌, ◌⊎◌, ap, true, ◌+◌, ◌%◌, ◌^◌, ◌<◌, ◌≡◌, refl, subst, false, Option, none,
  some, List, [], ◌∷◌, arith, All, Bool-cases, inl, inr,
}
use order_matching_engine.Base.Int.{ℤ, pos, negsuc, pos_part, ◌-ℤ◌, min_ℤ, ltb_ℤ}
use order_matching_engine.Order.{Price, Order, IsOrdered}
use order_matching_engine.Report.{Report, trade}
use order_matching_engine.Levels.{Node}
use order_matching_engine.Levels.Priority.{orders}
use order_matching_engine.OrderBook.{SymbolStats}
use order_matching_engine.OrderBook.Lots.{IsLot, IsRest, Lots, fill}
use order_matching_engine.OrderBook.Turn.{count_report}
use order_matching_engine.OrderBook.Engine.{Crossings, settled, crossing}
use order_matching_engine.OrderBook.Spec
use order_matching_engine.OrderBook.Spec.{PriorityBook, view}

module _ {P : Type 0} where
  -- The total quantity of a side.
  abbrev pub volume : List (Order P) → ℕ
  volume [] = 0
  volume (o ∷ os) = pos_part o.quantity + volume os

  abbrev pub OrderLots : List (Order P) → Type 0
  OrderLots = All (λ o. IsLot o.quantity)

  abbrev pub quantity_of : Report P → ℕ
  quantity_of (trade p q buyer seller) = pos_part q
  quantity_of _ = 0

  abbrev pub TradesLot : Report P → Type 0
  TradesLot (trade p q buyer seller) = IsLot q
  TradesLot _ = ⊥

  pub count_report-lot :
      (r : Report P) (s : SymbolStats)
      → TradesLot r
      → ((count_report r s).total_orders ≡ s.total_orders)
        × ((count_report r s).total_trades ≡ (s.total_trades + 1) % 2 ^ 64)
        × ((count_report r s).total_volume ≡ (s.total_volume + quantity_of r) % 2 ^ 64)
  count_report-lot (trade p (pos n) buyer seller) s l = omega arith
  count_report-lot (trade p (negsuc n) buyer seller) s l = absurd l
  count_report-lot r s l = absurd l

  -- The total quantity of the printed trades.
  abbrev pub traded : List (Report P) → ℕ
  traded [] = 0
  traded (r ∷ rs) = quantity_of r + traded rs

  volume-keep :
      (o : Order P) (left : ℤ) (os : List (Order P))
      → IsRest left
      → volume (Spec.keep o left os) ≡ pos_part left + volume os
  volume-keep o (pos k) os r = ground arith
  volume-keep o (negsuc k) os r = absurd r

  OrderLots-keep :
      (o : Order P) (left : ℤ) (os : List (Order P))
      → IsRest left
      → OrderLots os
      → OrderLots (Spec.keep o left os)
  OrderLots-keep o (pos k) os r a = ground arith
  OrderLots-keep o (negsuc k) os r a = absurd r

pub orders-Lots : {P : Type 0} (ns : List (Node P)) → Lots ns → OrderLots (orders ns)
orders-Lots [] a = tt
orders-Lots (n ∷ ns) a = (a.0, orders-Lots ns a.1)

module _ {P : Type 0} ⦃d : Price P⦄ where
  -- The trade is between these two orders. Its quantity is all of one of them; its price is that of the
  -- order with the earlier timestamp (on a tie the bid's), and no limit refuses it.
  pub record IsTradeOf (b a : Order P) (p : P) (q : ℤ) (buyer seller : ℕ) : Type 0 where
    pub bought : buyer ≡ b.order_id
    pub sold : seller ≡ a.order_id
    pub crossing : d.lt b.price a.price ≡ false
    pub fills_one : (q ≡ b.quantity) ⊎ (q ≡ a.quantity)
    pub at_earlier :
        ((ltb_ℤ a.timestamp b.timestamp ≡ false) × (p ≡ b.price))
        ⊎ ((ltb_ℤ a.timestamp b.timestamp ≡ true) × (p ≡ a.price))
    pub bid_limit : d.lt b.price p ≡ false
    pub ask_limit : d.lt p a.price ≡ false

  abbrev pub Between : List (Order P) → List (Order P) → Report P → Type 0
  Between (b ∷ _) (a ∷ _) (trade p q buyer seller) = IsTradeOf b a p q buyer seller
  Between _ _ _ = ⊥

  -- `q` is taken of the first order of a side, which leaves if nothing of it is left; all else stays.
  abbrev pub TakenOff : ℕ → List (Order P) → List (Order P) → Type 0
  TakenOff q [] left = ⊥
  TakenOff q (o ∷ os) left =
      ((pos_part o.quantity ≡ q) × (left ≡ os))
      ⊎ ((q < pos_part o.quantity)
          × (left ≡ record o { quantity = pos (pos_part o.quantity - q) } ∷ os))

  -- One trade between the best bid and the best ask, and the book that it leaves.
  pub record FairTrade (s : PriorityBook P) (r : Report P) (t : PriorityBook P) : Type 0 where
    pub bids_left : TakenOff (quantity_of r) s.bids t.bids
    pub asks_left : TakenOff (quantity_of r) s.asks t.asks
    pub bid_lots : OrderLots t.bids
    pub ask_lots : OrderLots t.asks
    pub lot : TradesLot r
    pub between : Between s.bids s.asks r

  -- A run of such trades.
  pub data FairRun : PriorityBook P → List (Report P) → PriorityBook P → Type 0 where
    done : {s : PriorityBook P} → FairRun s [] s
    next :
        {s t u : PriorityBook P} {r : Report P} {rs : List (Report P)}
        → FairTrade s r t
        → FairRun t rs u
        → FairRun s (r ∷ rs) u

  abbrev StepOk : PriorityBook P → Option (Report P × PriorityBook P) → Type 0
  StepOk s none = Unit
  StepOk s (some (r, t)) = FairTrade s r t

  module _ (laws : IsOrdered P) where
    price_within :
        (b a : Order P)
        → d.lt b.price a.price ≡ false
        → (d.lt b.price (Spec.earlier b a).price ≡ false)
          × (d.lt (Spec.earlier b a).price a.price ≡ false)
    price_within b a crosses = ground (arith, laws.weak.irrefl b.price, laws.weak.irrefl a.price)

    at_earlier :
        (b a : Order P)
        → ((ltb_ℤ a.timestamp b.timestamp ≡ false) × ((Spec.earlier b a).price ≡ b.price))
          ⊎ ((ltb_ℤ a.timestamp b.timestamp ≡ true) × ((Spec.earlier b a).price ≡ a.price))
    at_earlier b a = elim (Bool-cases (ltb_ℤ a.timestamp b.timestamp)) [
      | inl yes_ask ↦ rw yes_ask (inr (refl, refl))
      | inr no_ask ↦ rw no_ask (inl (refl, refl))
    ]

    fills_one : (m n : ℤ) → (min_ℤ m n ≡ m) ⊎ (min_ℤ m n ≡ n)
    fills_one m n = elim (Bool-cases (ltb_ℤ n m)) [
      | inl yes_ask ↦ rw yes_ask (inr refl)
      | inr no_ask ↦ rw no_ask (inl refl)
    ]

    -- What `keep` leaves is what the trade takes off.
    keep-TakenOff :
        (o : Order P) (left : ℤ) (q : ℕ) (os : List (Order P))
        → IsRest left
        → pos_part o.quantity ≡ pos_part left + q
        → TakenOff q (o ∷ os) (Spec.keep o left os)
    keep-TakenOff o (negsuc k) q os r e = absurd r
    keep-TakenOff o (pos zero) q os r e = inl (omega (arith, e), refl)
    keep-TakenOff o (pos (suc k)) q os r e =
        let same : suc k ≡ pos_part o.quantity - q = omega (arith, e) in
        let more : eqb (suc k) 0 ≡ false = ground arith in
        rw more (inr (omega (arith, e), ap (λ n. record o { quantity = pos n } ∷ os) same))

    fronts-StepOk :
        (bids asks : List (Order P))
        → OrderLots bids
        → OrderLots asks
        → StepOk (record { bids = bids; asks = asks }) (Spec.cross_fronts bids asks)
    fronts-StepOk [] asks u v = tt
    fronts-StepOk (b ∷ bids) [] u v = tt
    fronts-StepOk (b ∷ bids) (a ∷ asks) u v = elim (Bool-cases (d.lt b.price a.price)) [
      | inl apart ↦ rw apart tt
      | inr crosses ↦
          let f = fill b.quantity a.quantity u.0 v.0 in
          let q = min_ℤ b.quantity a.quantity in
          rw crosses (record {
            bids_left = keep-TakenOff b (b.quantity -ℤ q) (pos_part q) bids f.rest_left f.sum_left;
            asks_left =
                keep-TakenOff a (a.quantity -ℤ q) (pos_part q) asks f.rest_right f.sum_right;
            bid_lots = OrderLots-keep b (b.quantity -ℤ q) bids f.rest_left u.1;
            ask_lots = OrderLots-keep a (a.quantity -ℤ q) asks f.rest_right v.1;
            lot = f.lot;
            between = record {
              bought = refl;
              sold = refl;
              crossing = crosses;
              fills_one = fills_one b.quantity a.quantity;
              at_earlier = at_earlier b a;
              bid_limit = (price_within b a crosses).0;
              ask_limit = (price_within b a crosses).1;
            };
          })
    ]

    pub cross-FairTrade :
        {s t : PriorityBook P} {r : Report P}
        → OrderLots s.bids
        → OrderLots s.asks
        → Spec.cross s ≡ some (r, t)
        → FairTrade s r t
    cross-FairTrade {s} u v e = subst (StepOk s) e (fronts-StepOk s.bids s.asks u v)

    pub Crossings-FairRun :
        {s t : PriorityBook P} {rs : List (Report P)}
        → Crossings s rs t
        → OrderLots s.bids
        → OrderLots s.asks
        → FairRun s rs t
    Crossings-FairRun (settled e) u v = done
    Crossings-FairRun (crossing e c) u v =
        let f = cross-FairTrade u v e in next f (Crossings-FairRun c f.bid_lots f.ask_lots)
