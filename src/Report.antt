-- ===== src/Report.antt =====
-- What the engine writes to `std::cout`, a line as a value with the data that it shows.
use order_matching_engine.Base.{ℕ, Text}
use order_matching_engine.Base.Int.{ℤ}
use order_matching_engine.Order.{Side}

pub data Report (P : Type 0) : Type 0 where
  -- orderbook.h
  added : (order_id : ℕ) (side : Side) (quantity : ℤ) (price : P) → Report P
  cancel_rejected : (order_id : ℕ) → Report P
  cancelled : (order_id : ℕ) (side : Side) (quantity : ℤ) (price : P) → Report P
  modify_rejected : (order_id : ℕ) → Report P
  modified_in_place : (order_id : ℕ) (old_quantity new_quantity : ℤ) → Report P
  modified :
      (order_id : ℕ) (old_quantity : ℤ) (old_price : P) (new_quantity : ℤ) (new_price : P)
      → Report P
  trade : (price : P) (quantity : ℤ) (buyer seller : ℕ) → Report P
  book_title : (symbol : Text) → Report P
  bids_title asks_title : Report P
  level_line : (price : P) (total_quantity : ℤ) (order_count : ℕ) → Report P
  empty_side : Report P
  -- exchange.h
  cancel_unknown : (order_id : ℕ) → Report P
  modify_unknown : (order_id : ℕ) → Report P
  modify_wrong_symbol : (order_id : ℕ) (actual asked : Text) → Report P
  book_unknown : (symbol : Text) → Report P
  no_symbols : Report P
  symbol_stats : (symbol : Text) (total_orders total_trades total_volume : ℕ) → Report P
