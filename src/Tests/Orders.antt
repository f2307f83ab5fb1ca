-- ===== src/Tests/Orders.antt =====
-- Prices as natural numbers, a few orders, and the books that they make.
use order_matching_engine.Base.{ℕ, ◌≡◌, refl, none, arith, ltb, eqb}
use order_matching_engine.Base.Int.{pos}
use order_matching_engine.Order.{buy, sell, Price, IsOrdered, Order}
use order_matching_engine.OrderBook.{OrderBook, empty_book, resting, add_order, insert_order}
use order_matching_engine.Levels.{push_back}
use order_matching_engine.OrderBook.Invariant.{IsValid, empty_book-IsValid}
use order_matching_engine.OrderBook.Lots.{Lots}
use order_matching_engine.OrderBook.Spec
use order_matching_engine.OrderBook.Spec.{view}
use order_matching_engine.OrderBook.Refine.{add_order-Refines}

instance abbrev pub nat_price : Price ℕ
nat_price = record { lt = ltb; eq = eqb }

pub nat_laws : IsOrdered ℕ
nat_laws = record {
  weak = record {
    irrefl = λ a. ground arith;
    trans = λ a b c h k. ground arith;
    split = λ a b c h. ground arith;
  };
  eq_level = λ a b. ground arith;
}

abbrev pub sell_1 : Order ℕ
sell_1 = record { order_id = 1; side = sell; price = 100; quantity = pos 10; timestamp = pos 1 }

abbrev pub sell_2 : Order ℕ
sell_2 = record { order_id = 2; side = sell; price = 101; quantity = pos 5; timestamp = pos 2 }

abbrev pub buy_3 : Order ℕ
buy_3 = record { order_id = 3; side = buy; price = 101; quantity = pos 12; timestamp = pos 3 }

abbrev pub one_ask : OrderBook ℕ
one_ask = (add_order sell_1 empty_book).1

abbrev pub two_asks : OrderBook ℕ
two_asks = (add_order sell_2 one_ask).1

-- The bid crosses both asks.
abbrev pub crossed : OrderBook ℕ
crossed = (add_order buy_3 two_asks).1

pub one_ask-IsValid : IsValid one_ask
one_ask-IsValid = (add_order-Refines nat_laws sell_1 empty_book empty_book-IsValid refl).1

pub sell_2_new : Spec.find 2 (view one_ask) ≡ none
unfolding add_order insert_order push_back
sell_2_new = refl

pub two_asks-IsValid : IsValid two_asks
two_asks-IsValid = (add_order-Refines nat_laws sell_2 one_ask one_ask-IsValid sell_2_new).1

pub buy_3_new : Spec.find 3 (view two_asks) ≡ none
unfolding add_order insert_order push_back
buy_3_new = refl

pub crossed-IsValid : IsValid crossed
crossed-IsValid = (add_order-Refines nat_laws buy_3 two_asks two_asks-IsValid buy_3_new).1

pub crossed-Lots : Lots (resting crossed)
unfolding add_order insert_order push_back
crossed-Lots =
    ((omega arith, omega arith), ((omega arith, omega arith), ((omega arith, omega arith), tt)))
