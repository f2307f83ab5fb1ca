-- ===== src/Tests/Books.antt =====
-- The theorems of the order book, on the books of Orders.
use order_matching_engine.Base.{
  ◌+◌, ◌<◌, ◌^◌, arith, ◌≤◌, ◌≡◌, [], ◌∷◌, ◌++◌, map, take, All, length,
}
use order_matching_engine.Base.Exec.{ok, Returns, Ends}
use order_matching_engine.Base.Int.{pos}
use order_matching_engine.Order.{buy}
use order_matching_engine.OrderBook.{
  resting, title, or_empty, print_book, add_order, insert_order, cancel_order, modify_order,
  match_orders,
}
use order_matching_engine.OrderBook.Spec
use order_matching_engine.OrderBook.Spec.{view}
use order_matching_engine.OrderBook.Modify.{modify_order-Refines}
use order_matching_engine.OrderBook.Refine.{Refines, add_order-Refines, cancel_order-Refines}
use order_matching_engine.OrderBook.Engine.{Matched, match_orders-Matched}
use order_matching_engine.OrderBook.Uncrossed.{
  Uncrossed, match_orders-Uncrossed, PlacedOn, add_order-PlacedOn,
}
use order_matching_engine.OrderBook.Conserve.{match_orders-FairRun, Counted, match_orders-volume}
use order_matching_engine.OrderBook.Trades.{FairRun, volume, traded}
use order_matching_engine.OrderBook.Depth.{IsShowable, depth_line, print_book-depth}
use order_matching_engine.Levels.{push_back}
use order_matching_engine.Report.{bids_title, asks_title}
use order_matching_engine.OrderBook.Terminates.{match_orders-Ends}
use order_matching_engine.Tests.Orders.{
  nat_price, nat_laws, buy_3, two_asks, two_asks-IsValid, buy_3_new, crossed, crossed-IsValid,
  crossed-Lots,
}

match_orders-Matched_example : Returns (Matched crossed) (match_orders crossed)
match_orders-Matched_example = match_orders-Matched nat_laws crossed crossed-IsValid crossed-Lots

match_orders-Uncrossed_example : Returns (λ r. Uncrossed (view r.1)) (match_orders crossed)
match_orders-Uncrossed_example =
    match_orders-Uncrossed nat_laws crossed crossed-IsValid crossed-Lots

match_orders-FairRun_example :
    Returns (λ r. FairRun (view crossed) r.0 (view r.1)) (match_orders crossed)
match_orders-FairRun_example = match_orders-FairRun nat_laws crossed crossed-IsValid crossed-Lots

few_trades : (crossed.stats.total_trades < 2 ^ 64) × (crossed.stats.total_volume < 2 ^ 64)
unfolding add_order insert_order
few_trades = (omega arith, omega arith)

match_orders-volume_example :
    Returns
      (λ r.
        (volume (view crossed).bids ≡ volume (view r.1).bids + traded r.0)
        × (volume (view crossed).asks ≡ volume (view r.1).asks + traded r.0)
        × Counted nat_laws crossed.stats r.0 r.1.stats)
      (match_orders crossed)
match_orders-volume_example =
    match_orders-volume nat_laws crossed crossed-IsValid crossed-Lots few_trades.0 few_trades.1

match_orders-Ends_example :
    Ends (λ r. length (resting r.1) ≤ length (resting crossed)) (match_orders crossed)
match_orders-Ends_example = match_orders-Ends crossed

add_order-Refines_example :
    Refines
      (Spec.added_report buy_3 ∷ [], Spec.add buy_3 (view two_asks))
      (add_order buy_3 two_asks)
add_order-Refines_example = add_order-Refines nat_laws buy_3 two_asks two_asks-IsValid buy_3_new

add_order-PlacedOn_example : PlacedOn buy buy_3 (view two_asks) (view (add_order buy_3 two_asks).1)
add_order-PlacedOn_example = add_order-PlacedOn nat_laws buy_3 two_asks two_asks-IsValid buy_3_new

cancel_order-Refines_example :
    Returns (Refines (Spec.cancel 2 (view crossed))) (cancel_order 2 crossed)
cancel_order-Refines_example = cancel_order-Refines nat_laws 2 crossed crossed-IsValid

modify_order-Refines_example :
    Returns
      (Refines (Spec.modify 2 (pos 4) 101 (pos 9) (view crossed)))
      (modify_order 2 (pos 4) 101 (pos 9) crossed)
modify_order-Refines_example =
    modify_order-Refines nat_laws 2 (pos 4) 101 (pos 9) crossed crossed-IsValid

crossed_bids : All IsShowable crossed.bids
unfolding add_order insert_order push_back
crossed_bids = ((((omega arith, omega arith), tt), omega arith), tt)

crossed_asks : All IsShowable crossed.asks
unfolding add_order insert_order push_back
crossed_asks = (
  (((omega arith, omega arith), tt), omega arith),
  ((((omega arith, omega arith), tt), omega arith), tt),
)

print_book-depth_example :
    print_book (65 ∷ []) crossed
    ≡ ok (
        title (65 ∷ [])
        ++ bids_title ∷ or_empty (map depth_line (take 5 crossed.bids))
        ++ asks_title ∷ or_empty (map depth_line (take 5 crossed.asks)))
print_book-depth_example = print_book-depth (65 ∷ []) crossed crossed_bids crossed_asks
