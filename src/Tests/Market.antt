-- ===== src/Tests/Market.antt =====
-- The theorems of the exchange, on an exchange with one symbol.
use order_matching_engine.Base.{ℕ, ◌≡◌, refl, none, [], ◌∷◌, Text, nat_key, text_key, arith}
use order_matching_engine.Base.Exec.{Returns}
use order_matching_engine.Base.Int.{pos}
use order_matching_engine.Base.Dict.{lookup, insert}
use order_matching_engine.Levels.{push_back}
use order_matching_engine.OrderBook.{resting, insert_order}
use order_matching_engine.OrderBook
use order_matching_engine.OrderBook.Lots.{Lots}
use order_matching_engine.Exchange.{
  Exchange, empty_exchange, book_at, add_order, cancel_order, modify_order, match_orders,
}
use order_matching_engine.Exchange.Routing.{
  IsValid, empty_exchange-IsValid, Added, add_order-Added, CancelOk, cancel_order-CancelOk,
}
use order_matching_engine.Exchange.Changes.{
  ModifyOk, modify_order-ModifyOk, MatchOk, match_orders-MatchOk,
}
use order_matching_engine.Tests.Orders.{nat_price, nat_laws, sell_1, buy_3}

abbrev symbol : Text
symbol = 65 ∷ 66 ∷ []

abbrev one_order : Exchange ℕ
one_order = (add_order symbol sell_1 empty_exchange).1

abbrev two_orders : Exchange ℕ
two_orders = (add_order symbol buy_3 one_order).1

one_order-IsValid : IsValid one_order
unfolding lookup
one_order-IsValid =
    (add_order-Added nat_laws symbol sell_1 empty_exchange empty_exchange-IsValid refl).valid

buy_3_unknown : lookup 3 one_order.order_symbol_map ≡ none
unfolding add_order lookup insert
buy_3_unknown = refl

two_orders-IsValid : IsValid two_orders
two_orders-IsValid =
    (add_order-Added nat_laws symbol buy_3 one_order one_order-IsValid buy_3_unknown).valid

two_orders-Lots : Lots (resting (book_at symbol two_orders.books))
unfolding add_order lookup insert OrderBook.add_order insert_order push_back
two_orders-Lots = ((omega arith, omega arith), ((omega arith, omega arith), tt))

add_order-Added_example : Added symbol buy_3 one_order (add_order symbol buy_3 one_order).1
add_order-Added_example =
    add_order-Added nat_laws symbol buy_3 one_order one_order-IsValid buy_3_unknown

cancel_order-CancelOk_example :
    Returns
      (λ r. CancelOk nat_laws 1 (lookup 1 two_orders.order_symbol_map) two_orders r × IsValid r.1)
      (cancel_order 1 two_orders)
cancel_order-CancelOk_example = cancel_order-CancelOk nat_laws 1 two_orders two_orders-IsValid

modify_order-ModifyOk_example :
    Returns
      (λ r.
        ModifyOk 1 symbol (pos 4) 100 (pos 9) (lookup 1 two_orders.order_symbol_map) two_orders r
        × IsValid r.1)
      (modify_order 1 symbol (pos 4) 100 (pos 9) two_orders)
modify_order-ModifyOk_example =
    modify_order-ModifyOk nat_laws 1 symbol (pos 4) 100 (pos 9) two_orders two_orders-IsValid

match_orders-MatchOk_example :
    Returns
      (λ r. MatchOk nat_laws symbol (lookup symbol two_orders.books) two_orders r × IsValid r.1)
      (match_orders symbol two_orders)
match_orders-MatchOk_example =
    match_orders-MatchOk nat_laws symbol two_orders two_orders-IsValid two_orders-Lots
