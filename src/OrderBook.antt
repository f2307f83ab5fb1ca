-- ===== src/OrderBook.antt =====
-- `class OrderBook` of orderbook.h. An operation returns what it prints and the new book.
pub mod Index
pub mod Spec
pub mod Invariant
pub mod Remove
pub mod Write
pub mod Refine
pub mod Modify
pub mod Lots
pub mod Quantities
pub mod Match
pub mod Turn
pub mod Terminates
pub mod Engine
pub mod Uncrossed
pub mod Trades
pub mod Conserve
pub mod Ids
pub mod Depth
pub mod Lines
pub mod Load
use order_matching_engine.Base.{
  ℕ, zero, suc, ◌+◌, Bool, ◌&&◌, Option, none, some, List, [], ◌∷◌, ◌++◌, leb, length,
  if◌then◌else◌, Text, nat_key,
}
use order_matching_engine.Base.Exec.{Exec, ok, undefined, out_of_fuel, ◌>>=◌, deref}
use order_matching_engine.Base.Int.{
  ℤ, pos, ◌+ℤ◌, ◌-ℤ◌, ltb_ℤ, is_zero, min_ℤ, int_limit, checked, to_u64, add_u64,
}
use order_matching_engine.Base.Dict.{Dict, lookup, insert, erase}
use order_matching_engine.Order.{Side, buy, sell, Price, Order}
use order_matching_engine.Report.{
  Report, added, cancel_rejected, cancelled, modify_rejected, modified_in_place, modified, trade,
  book_title, bids_title, asks_title, level_line, empty_side,
}
use order_matching_engine.Levels.{
  Node, Level, Levels, nodes, find_node, settle, set_quantity, write_quantity, push_back, remove_at,
}

-- `it` is the handle of the list node.
pub record OrderLocation (P : Type 0) : Type 0 where
  pub side : Side
  pub price : P
  pub it : ℕ

pub record SymbolStats : Type 0 where
  pub total_orders : ℕ
  pub total_trades : ℕ
  pub total_volume : ℕ

-- `next_handle` is the list node that the next insertion allocates.
pub record OrderBook (P : Type 0) : Type 0 where
  pub bids : Levels P
  pub asks : Levels P
  pub order_map : Dict ℕ (OrderLocation P)
  pub stats : SymbolStats
  pub next_handle : ℕ

abbrev pub empty_book : {P : Type 0} → OrderBook P
empty_book = record {
  bids = [];
  asks = [];
  order_map = [];
  stats = record { total_orders = 0; total_trades = 0; total_volume = 0 };
  next_handle = 0;
}

-- The comparators of `bids` and `asks`.
abbrev pub greater : {P : Type 0} ⦃d : Price P⦄ → P → P → Bool
greater ⦃d⦄ a b = d.lt b a

abbrev pub less : {P : Type 0} ⦃d : Price P⦄ → P → P → Bool
less ⦃d⦄ = d.lt

abbrev pub resting : {P : Type 0} → OrderBook P → List (Node P)
resting b = nodes b.bids ++ nodes b.asks

abbrev pub count_trade : ℤ → SymbolStats → SymbolStats
count_trade quantity s = record s {
  total_trades = add_u64 s.total_trades 1;
  total_volume = add_u64 s.total_volume (to_u64 quantity);
}

module _ {P : Type 0} where
  -- The front order of a queue after a trade that leaves `left` of it.
  abbrev pub filled : Node P → ℤ → List (Node P) → List (Node P)
  filled n left q = if is_zero left then q else set_quantity n left ∷ q

  abbrev pub unindex : Node P → ℤ → Dict ℕ (OrderLocation P) → Dict ℕ (OrderLocation P)
  unindex n left m = if is_zero left then erase n.order.order_id m else m

  -- The price of the order with the earlier timestamp.
  abbrev pub trade_price : Order P → Order P → P
  trade_price bid ask = if ltb_ℤ ask.timestamp bid.timestamp then ask.price else bid.price

module _ {P : Type 0} ⦃d : Price P⦄ where
  unfoldable pub remove_by_location : OrderLocation P → OrderBook P → Exec (OrderBook P)
  remove_by_location loc b = elim loc.side [
    | buy ↦ remove_at greater loc.price loc.it b.bids >>= λ levels. ok (record b { bids = levels })
    | sell ↦ remove_at less loc.price loc.it b.asks >>= λ levels. ok (record b { asks = levels })
  ]

  abbrev node_of : Order P → OrderBook P → Node P
  node_of o b = record { handle = b.next_handle; order = o }

  unfoldable pub insert_order : Order P → OrderBook P → OrderBook P
  insert_order o b =
      let loc : OrderLocation P = record { side = o.side; price = o.price; it = b.next_handle } in
      record b {
        bids = elim o.side [ buy ↦ push_back greater (node_of o b) b.bids | sell ↦ b.bids ];
        asks = elim o.side [ buy ↦ b.asks | sell ↦ push_back less (node_of o b) b.asks ];
        order_map = insert o.order_id loc b.order_map;
        next_handle = suc b.next_handle;
      }

  unfoldable pub add_order : Order P → OrderBook P → List (Report P) × OrderBook P
  add_order o b =
      let b' = insert_order o b in
      let stats = record b'.stats { total_orders = add_u64 b'.stats.total_orders 1 } in
      (added o.order_id o.side o.quantity o.price ∷ [], record b' { stats = stats })

  unfoldable pub cancel_order : ℕ → OrderBook P → Exec (List (Report P) × OrderBook P)
  cancel_order id b = elim (lookup id b.order_map) [
    | none ↦ ok (cancel_rejected id ∷ [], b)
    | some loc ↦ do
      n ← deref (find_node loc.it (resting b))
      b' ← remove_by_location loc b
      ok (
        cancelled id loc.side n.order.quantity loc.price ∷ [],
        record b' { order_map = erase id b'.order_map },
      )
  ]

  -- `existing.quantity = newQty`
  abbrev pub write_order : ℕ → ℤ → OrderBook P → OrderBook P
  write_order it quantity b = record b {
    bids = write_quantity it quantity b.bids;
    asks = write_quantity it quantity b.asks;
  }

  unfoldable pub modify_order : ℕ → ℤ → P → ℤ → OrderBook P → Exec (List (Report P) × OrderBook P)
  modify_order id new_qty new_price timestamp b = elim (lookup id b.order_map) [
    | none ↦ ok (modify_rejected id ∷ [], b)
    | some loc ↦ do
      n ← deref (find_node loc.it (resting b))
      let existing = n.order
      if d.eq new_price existing.price && ltb_ℤ new_qty existing.quantity
          then ok
              (modified_in_place id existing.quantity new_qty ∷ [], write_order loc.it new_qty b)
          else (do
            b' ← remove_by_location loc b
            let new_order : Order P = record {
              order_id = id;
              side = existing.side;
              price = new_price;
              quantity = new_qty;
              timestamp = timestamp;
            }
            ok (
              modified id existing.quantity existing.price new_qty new_price ∷ [],
              insert_order new_order (record b' { order_map = erase id b'.order_map }),
            ))
  ]

  -- One round of the loop of `matchOrders` at the best levels; `front()` of an empty list is undefined.
  unfoldable pub trade_fronts :
      OrderBook P
      → Level P
      → Levels P
      → Level P
      → Levels P
      → List (Node P)
      → List (Node P)
      → Exec (Report P × OrderBook P)
  trade_fronts b l ls m ms (bid ∷ q) (ask ∷ r) = do
    let quantity = min_ℤ bid.order.quantity ask.order.quantity
    bid_left ← checked int_limit (bid.order.quantity -ℤ quantity)
    ask_left ← checked int_limit (ask.order.quantity -ℤ quantity)
    ok (
      trade (trade_price bid.order ask.order) quantity bid.order.order_id ask.order.order_id,
      record b {
        bids = settle l (filled bid bid_left q) ls;
        asks = settle m (filled ask ask_left r) ms;
        order_map = unindex ask ask_left (unindex bid bid_left b.order_map);
        stats = count_trade quantity b.stats;
      },
    )
  trade_fronts b l ls m ms _ _ = undefined

  -- One test of the loop, and its body if it goes on; `none` leaves the loop.
  unfoldable pub turn_at :
      OrderBook P → Levels P → Levels P → Exec (Option (Report P × OrderBook P))
  turn_at b (l ∷ ls) (m ∷ ms) =
      if d.lt l.price m.price
      then ok none
      else (trade_fronts b l ls m ms l.queue m.queue >>= λ r. ok (some r))
  turn_at b _ _ = ok none

  unfoldable pub match_turn : OrderBook P → Exec (Option (Report P × OrderBook P))
  match_turn b = turn_at b b.bids b.asks

  unfoldable pub match_loop : ℕ → OrderBook P → Exec (List (Report P) × OrderBook P)
  match_loop zero b = out_of_fuel
  match_loop (suc fuel) b = match_turn b >>= elim [
    | none ↦ ok ([], b)
    | some (r, b') ↦ match_loop fuel b' >>= λ (rs, b''). ok (r ∷ rs, b'')
  ]

  -- Each round takes an order out, so the number of resting orders bounds the rounds.
  unfoldable pub match_orders : OrderBook P → Exec (List (Report P) × OrderBook P)
  match_orders b = match_loop (suc (length (resting b))) b

  -- `totalQty` of a level, an `int`.
  unfoldable pub level_total : ℤ → List (Node P) → Exec ℤ
  level_total total [] = ok total
  level_total total (n ∷ q) = checked int_limit (total +ℤ n.order.quantity) >>= λ t. level_total t q

  unfoldable pub show_levels : ℕ → Levels P → Exec (List (Report P))
  show_levels count [] = ok []
  show_levels count (l ∷ ls) =
      let rest = show_levels (count + 1) ls in
      if leb 5 count then ok [] else (do
        total ← level_total (pos 0) l.queue
        lines ← rest
        ok (level_line l.price total (length l.queue) ∷ lines))

  abbrev pub or_empty : List (Report P) → List (Report P)
  or_empty [] = empty_side ∷ []
  or_empty (r ∷ rs) = r ∷ rs

  abbrev pub title : Text → List (Report P)
  title [] = []
  title (c ∷ s) = book_title (c ∷ s) ∷ []

  unfoldable pub print_book : Text → OrderBook P → Exec (List (Report P))
  print_book symbol b = do
    bid_lines ← show_levels 0 b.bids
    ask_lines ← show_levels 0 b.asks
    ok (title symbol ++ bids_title ∷ or_empty bid_lines ++ asks_title ∷ or_empty ask_lines)

abbrev pub get_stats : {P : Type 0} → OrderBook P → SymbolStats
get_stats b = b.stats
