-- ===== src/OrderBook/Spec.antt =====
-- What an order book promises, over two lists of orders in price-time priority: no levels, no index.
use order_matching_engine.Base.{
  ℕ, ◌&&◌, Option, none, some, List, [], ◌∷◌, ◌++◌, eqb, if◌then◌else◌,
}
use order_matching_engine.Base.Int.{ℤ, ◌-ℤ◌, ltb_ℤ, is_zero, min_ℤ}
use order_matching_engine.Order.{buy, sell, Price, Order}
use order_matching_engine.Report.{
  Report, added, cancel_rejected, cancelled, modify_rejected, modified_in_place, modified, trade,
}
use order_matching_engine.Levels.{nodes}
use order_matching_engine.Levels.Priority.{place, orders}
use order_matching_engine.OrderBook.{OrderBook, greater, less}

pub record PriorityBook (P : Type 0) : Type 0 where
  pub bids : List (Order P)
  pub asks : List (Order P)

-- The abstract view of a book.
abbrev pub view : {P : Type 0} → OrderBook P → PriorityBook P
view b = record { bids = orders (nodes b.bids); asks = orders (nodes b.asks) }

module _ {P : Type 0} where
  abbrev pub find_order : ℕ → List (Order P) → Option (Order P)
  find_order id [] = none
  find_order id (o ∷ os) = if eqb o.order_id id then some o else find_order id os

  abbrev pub drop_order : ℕ → List (Order P) → List (Order P)
  drop_order id [] = []
  drop_order id (o ∷ os) = if eqb o.order_id id then drop_order id os else o ∷ drop_order id os

  abbrev pub resize : ℕ → ℤ → List (Order P) → List (Order P)
  resize id q [] = []
  resize id q (o ∷ os) =
      (if eqb o.order_id id then record o { quantity = q } else o) ∷ resize id q os

  abbrev pub find : ℕ → PriorityBook P → Option (Order P)
  find id s = find_order id (s.bids ++ s.asks)

  abbrev pub remove : ℕ → PriorityBook P → PriorityBook P
  remove id s = record { bids = drop_order id s.bids; asks = drop_order id s.asks }

  abbrev pub reduce : ℕ → ℤ → PriorityBook P → PriorityBook P
  reduce id q s = record { bids = resize id q s.bids; asks = resize id q s.asks }

  -- What is left of the front order of a side.
  abbrev pub keep : Order P → ℤ → List (Order P) → List (Order P)
  keep o left os = if is_zero left then os else record o { quantity = left } ∷ os

  abbrev pub added_report : Order P → Report P
  added_report o = added o.order_id o.side o.quantity o.price

  abbrev pub cancel_found : ℕ → Option (Order P) → PriorityBook P → List (Report P) × PriorityBook P
  cancel_found id none s = (cancel_rejected id ∷ [], s)
  cancel_found id (some o) s = (cancelled id o.side o.quantity o.price ∷ [], remove id s)

  abbrev pub cancel : ℕ → PriorityBook P → List (Report P) × PriorityBook P
  cancel id s = cancel_found id (find id s) s

module _ {P : Type 0} ⦃d : Price P⦄ where
  abbrev pub add : Order P → PriorityBook P → PriorityBook P
  add o s = elim o.side [
    | buy ↦ record s { bids = place greater o s.bids }
    | sell ↦ record s { asks = place less o s.asks }
  ]

  abbrev pub replacement : Order P → ℤ → P → ℤ → Order P
  replacement o new_qty new_price timestamp = record o {
    price = new_price;
    quantity = new_qty;
    timestamp = timestamp;
  }

  abbrev pub modify_found :
      ℕ → ℤ → P → ℤ → Option (Order P) → PriorityBook P → List (Report P) × PriorityBook P
  modify_found id new_qty new_price timestamp none s = (modify_rejected id ∷ [], s)
  modify_found id new_qty new_price timestamp (some o) s =
      if d.eq new_price o.price && ltb_ℤ new_qty o.quantity
      then (modified_in_place id o.quantity new_qty ∷ [], reduce id new_qty s)
      else (
        modified id o.quantity o.price new_qty new_price ∷ [],
        add (replacement o new_qty new_price timestamp) (remove id s),
      )

  -- A smaller quantity at the same price keeps the order's place; any other change is a new order.
  abbrev pub modify : ℕ → ℤ → P → ℤ → PriorityBook P → List (Report P) × PriorityBook P
  modify id new_qty new_price timestamp s =
      modify_found id new_qty new_price timestamp (find id s) s

  -- The order that came first, of a bid and an ask; of two that came together it is the bid.
  abbrev pub earlier : Order P → Order P → Order P
  earlier b a = if ltb_ℤ a.timestamp b.timestamp then a else b

  -- A trade of the two best orders at the price of the earlier one, if they cross.
  abbrev pub cross_fronts : List (Order P) → List (Order P) → Option (Report P × PriorityBook P)
  cross_fronts (b ∷ bs) (a ∷ rest) =
      let q = min_ℤ b.quantity a.quantity in
      if d.lt b.price a.price
      then none
      else some (
        trade (earlier b a).price q b.order_id a.order_id,
        record { bids = keep b (b.quantity -ℤ q) bs; asks = keep a (a.quantity -ℤ q) rest },
      )
  cross_fronts _ _ = none

  abbrev pub cross : PriorityBook P → Option (Report P × PriorityBook P)
  cross s = cross_fronts s.bids s.asks
