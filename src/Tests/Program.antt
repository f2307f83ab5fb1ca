-- ===== src/Tests/Program.antt =====
-- The repository's test program, run on the model.
use order_matching_engine.Base.{ℕ, ◌≡◌, refl, List, [], ◌∷◌, nat_key, text_key}
use order_matching_engine.Base.Exec.{Exec, ok, ◌>>=◌}
use order_matching_engine.Base.Int.{pos}
use order_matching_engine.Base.Dict.{lookup, insert, erase}
use order_matching_engine.Report.{
  Report, trade, cancelled, cancel_unknown, modified_in_place, modified, modify_wrong_symbol,
  modify_unknown,
}
use order_matching_engine.Order.{buy}
use order_matching_engine.Levels.{write_quantity, push_back, remove_at}
use order_matching_engine.OrderBook
use order_matching_engine.OrderBook.{
  remove_by_location, insert_order, trade_fronts, turn_at, match_turn, match_loop, level_total,
  show_levels,
}
use order_matching_engine.Exchange
use order_matching_engine.TestProgram.{aapl, tsla, call_all, test_main}
use order_matching_engine.Tests.Orders.{nat_price}

-- Prices as natural numbers of halves.
abbrev halves : ℕ → ℕ
halves n = n

-- The lines of the trades and of the changes, without the books and the statistics.
abbrev events : List (Report ℕ) → List (Report ℕ)
events [] = []
events (trade p q b s ∷ rs) = trade p q b s ∷ events rs
events (cancelled i s q p ∷ rs) = cancelled i s q p ∷ events rs
events (cancel_unknown i ∷ rs) = cancel_unknown i ∷ events rs
events (modified_in_place i a b ∷ rs) = modified_in_place i a b ∷ events rs
events (modified i a p b q ∷ rs) = modified i a p b q ∷ events rs
events (modify_wrong_symbol i a s ∷ rs) = modify_wrong_symbol i a s ∷ events rs
events (modify_unknown i ∷ rs) = modify_unknown i ∷ events rs
events (_ ∷ rs) = events rs

abbrev shown : Exec (List (Report ℕ))
shown = test_main halves >>= λ r. ok (events r.0)

-- The trades, cancels and modifications that the program's headings announce, in order.
test_main_output :
    shown
    ≡ ok (
        trade 500 (pos 30) 5 6
        ∷ trade 304 (pos 15) 8 3
        ∷ cancelled 2 buy (pos 20) 299
        ∷ cancel_unknown 999
        ∷ modified_in_place 1 (pos 10) (pos 5)
        ∷ modified 4 (pos 10) 306 (pos 10) 302
        ∷ trade 305 (pos 10) 8 4
        ∷ modify_wrong_symbol 1 aapl tsla
        ∷ modify_unknown 888
        ∷ trade 3610 (pos 50) 11 10
        ∷ [])
unfolding call_all Exchange.add_order Exchange.cancel_order Exchange.modify_order
    Exchange.match_orders Exchange.print_book Exchange.print_stats OrderBook.add_order
    OrderBook.cancel_order OrderBook.modify_order OrderBook.match_orders OrderBook.print_book lookup
    insert erase remove_by_location insert_order trade_fronts turn_at match_turn match_loop
    level_total show_levels write_quantity push_back remove_at
test_main_output = refl
