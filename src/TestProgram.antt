-- ===== src/TestProgram.antt =====
-- main.cpp, the repository's test program: its calls on one exchange, with their output. Its prices are
-- halves of natural numbers, as those of the benchmark.
use order_matching_engine.Base.{ℕ, List, [], ◌∷◌, ◌++◌, Text}
use order_matching_engine.Base.Exec.{Exec, ok, ◌>>=◌}
use order_matching_engine.Base.Int.{ℤ, pos}
use order_matching_engine.Order.{Side, buy, sell, Price, Order}
use order_matching_engine.Report.{Report}
use order_matching_engine.Exchange
use order_matching_engine.Exchange.{Exchange, empty_exchange}

-- A call on the exchange.
pub data Call (P : Type 0) : Type 0 where
  add_order : (symbol : Text) (order : Order P) → Call P
  cancel_order : (order_id : ℕ) → Call P
  modify_order :
      (order_id : ℕ) (symbol : Text) (new_qty : ℤ) (new_price : P) (timestamp : ℤ) → Call P
  match_orders : (symbol : Text) → Call P
  print_book : (symbol : Text) → Call P
  print_stats : Call P

abbrev pub aapl : Text
aapl = 65 ∷ 65 ∷ 80 ∷ 76 ∷ []

abbrev pub tsla : Text
tsla = 84 ∷ 83 ∷ 76 ∷ 65 ∷ []

abbrev pub infy : Text
infy = 73 ∷ 78 ∷ 70 ∷ 89 ∷ []

abbrev pub goog : Text
goog = 71 ∷ 79 ∷ 79 ∷ 71 ∷ []

module _ {P : Type 0} ⦃d : Price P⦄ where
  abbrev pub call : Call P → Exchange P → Exec (List (Report P) × Exchange P)
  call (add_order symbol o) ex = ok (Exchange.add_order symbol o ex)
  call (cancel_order id) ex = Exchange.cancel_order id ex
  call (modify_order id symbol qty price timestamp) ex =
      Exchange.modify_order id symbol qty price timestamp ex
  call (match_orders symbol) ex = Exchange.match_orders symbol ex
  call (print_book symbol) ex = do lines ← Exchange.print_book symbol ex; ok (lines, ex)
  call print_stats ex = ok (Exchange.print_stats ex, ex)

  unfoldable pub call_all : List (Call P) → Exchange P → Exec (List (Report P) × Exchange P)
  call_all [] ex = ok ([], ex)
  call_all (c ∷ calls) ex = do r ← call c ex; rs ← call_all calls r.1; ok (r.0 ++ rs.0, rs.1)

module _ {P : Type 0} (halves : ℕ → P) where
  abbrev order : ℕ → Side → ℕ → ℕ → ℕ → Order P
  order id side half_price quantity timestamp = record {
    order_id = id;
    side = side;
    price = halves half_price;
    quantity = pos quantity;
    timestamp = pos timestamp;
  }

  -- Tests 1 to 4: resting orders, and matches within one symbol only.
  abbrev pub first_calls : List (Call P)
  first_calls =
      add_order aapl (order 1 buy 300 10 1000)
      ∷ add_order aapl (order 2 buy 299 20 1001)
      ∷ add_order aapl (order 3 sell 304 15 1002)
      ∷ add_order aapl (order 4 sell 306 10 1003)
      ∷ print_book aapl
      ∷ add_order tsla (order 5 buy 500 30 1004)
      ∷ add_order tsla (order 6 sell 500 30 1005)
      ∷ match_orders tsla
      ∷ print_book tsla
      ∷ add_order tsla (order 7 sell 298 10 1006)
      ∷ match_orders tsla
      ∷ match_orders aapl
      ∷ print_book aapl
      ∷ print_book tsla
      ∷ add_order aapl (order 8 buy 305 25 1007)
      ∷ match_orders aapl
      ∷ print_book aapl
      ∷ []

  -- Tests 5 to 10: cancels and modifications, of known and of unknown orders.
  abbrev pub change_calls : List (Call P)
  change_calls =
      cancel_order 2
      ∷ print_book aapl
      ∷ cancel_order 999
      ∷ modify_order 1 aapl (pos 5) (halves 300) (pos 2000)
      ∷ print_book aapl
      ∷ modify_order 4 aapl (pos 10) (halves 302) (pos 3000)
      ∷ match_orders aapl
      ∷ print_book aapl
      ∷ modify_order 1 tsla (pos 10) (halves 310) (pos 4000)
      ∷ modify_order 888 aapl (pos 10) (halves 100) (pos 4000)
      ∷ []

  -- Tests 11 to 13, and the final books.
  abbrev pub last_calls : List (Call P)
  last_calls =
      add_order infy (order 9 buy 3600 200 5000)
      ∷ add_order infy (order 10 sell 3610 100 5001)
      ∷ add_order infy (order 11 buy 3610 50 5002)
      ∷ match_orders infy
      ∷ print_book infy
      ∷ print_book goog
      ∷ print_stats
      ∷ print_book aapl
      ∷ print_book tsla
      ∷ print_book infy
      ∷ []

module _ {P : Type 0} ⦃d : Price P⦄ where
  abbrev pub test_main : (ℕ → P) → Exec (List (Report P) × Exchange P)
  test_main halves =
      call_all (first_calls halves ++ change_calls halves ++ last_calls halves) empty_exchange
