-- ===== src/Tests/Lines.antt =====
-- The theorems of the network thread, on two lines of input; a price is any rest of a line.
use order_matching_engine.Base.{◌≡◌, refl, ℕ, Option, some, [], ◌∷◌, arith, length, List, Text, All}
use order_matching_engine.Base.Int.{pos}
use order_matching_engine.Base.Exec.{Returns}
use order_matching_engine.Exchange.{empty_exchange}
use order_matching_engine.Exchange.Routing.{IsValid}
use order_matching_engine.Exchange.Live.{IsLive}
use order_matching_engine.Exchange.Quiet.{IsQuiet}
use order_matching_engine.Order.{buy, sell}
use order_matching_engine.Report.{added, trade, cancelled}
use order_matching_engine.Exchange.Market.{empty_market, carry_out_all, cross_all}
use order_matching_engine.Exchange.Agrees.{Does}
use order_matching_engine.Server.Refines.{process_lines-Does}
use order_matching_engine.Server.Stream.{read_u64, read_word, read_int, copy_symbol}
use order_matching_engine.Server.Parser.{Clocks, process_line, process_lines}
use order_matching_engine.Server.Engine.{dispatch_all}
use order_matching_engine.Server.Pipeline.{IsLiveCommand, process_lines-dispatch_all}
use order_matching_engine.Tests.Orders.{nat_price, nat_laws}
use order_matching_engine.Server.Ids.{Ascending, process_lines-Ascending}

abbrev pub clocks : Clocks
clocks = record { recv_timestamp = pos 1; timestamp = pos 2; queue_push = pos 3 }

-- "BUY A 5 9"
abbrev pub buy_line : Text
buy_line = 66 ∷ 85 ∷ 89 ∷ 32 ∷ 65 ∷ 32 ∷ 53 ∷ 32 ∷ 57 ∷ []

-- "BOOK A"
abbrev pub book_line : Text
book_line = 66 ∷ 79 ∷ 79 ∷ 75 ∷ 32 ∷ 65 ∷ []

abbrev pub read_price : Text → Option (ℕ × Text)
read_price s = some (length s, [])

process_lines-Ascending_example : Ascending 1 (
    process_lines 0 read_price
      ((buy_line, clocks) ∷ (book_line, clocks) ∷ (buy_line, clocks) ∷ [])
      1)
process_lines-Ascending_example =
    process_lines-Ascending 0 read_price
      ((buy_line, clocks) ∷ (book_line, clocks) ∷ (buy_line, clocks) ∷ []) 1 (omega arith)

abbrev three_lines : List (Text × Clocks)
three_lines = (buy_line, clocks) ∷ (book_line, clocks) ∷ (buy_line, clocks) ∷ []

three_lines-IsLiveCommand : All IsLiveCommand (process_lines 0 read_price three_lines 1)
unfolding process_lines process_line read_word read_int copy_symbol
three_lines-IsLiveCommand = ((omega arith, omega arith), (tt, ((omega arith, omega arith), tt)))

process_lines-dispatch_all_example :
    Returns
      (λ r. IsValid r.1 × IsLive r.1 × IsQuiet r.1)
      (dispatch_all (process_lines 0 read_price three_lines 1) empty_exchange)
process_lines-dispatch_all_example =
    process_lines-dispatch_all nat_laws 0 read_price three_lines 1 (omega arith)
      three_lines-IsLiveCommand

-- "SELL A 3 9"
abbrev sell_line : Text
sell_line = 83 ∷ 69 ∷ 76 ∷ 76 ∷ 32 ∷ 65 ∷ 32 ∷ 51 ∷ 32 ∷ 57 ∷ []

-- Two orders that cross, and a cancellation of what is left of the first, "CANCEL 1".
abbrev crossing_lines : List (Text × Clocks)
crossing_lines =
    (buy_line, clocks)
    ∷ (sell_line, clocks)
    ∷ (67 ∷ 65 ∷ 78 ∷ 67 ∷ 69 ∷ 76 ∷ 32 ∷ 49 ∷ [], clocks)
    ∷ []

crossing_lines-IsLiveCommand : All IsLiveCommand (process_lines 0 read_price crossing_lines 1)
unfolding process_lines process_line read_word read_int read_u64 copy_symbol
crossing_lines-IsLiveCommand = ((omega arith, omega arith), ((omega arith, omega arith), (tt, tt)))

crossing_lines-reports :
    (carry_out_all (process_lines 0 read_price crossing_lines 1) empty_market).0
    ≡ added 1 buy (pos 5) 2
      ∷ added 2 sell (pos 3) 2
      ∷ trade 2 (pos 3) 1 2
      ∷ cancelled 1 buy (pos 2) 2
      ∷ []
unfolding process_lines process_line read_word read_int read_u64 copy_symbol cross_all
crossing_lines-reports = refl

process_lines-Does_example :
    Returns
      (Does (carry_out_all (process_lines 0 read_price crossing_lines 1) empty_market))
      (dispatch_all (process_lines 0 read_price crossing_lines 1) empty_exchange)
process_lines-Does_example =
    process_lines-Does nat_laws 0 read_price crossing_lines 1 (omega arith)
      crossing_lines-IsLiveCommand
