-- ===== src/Exchange.antt =====
-- `class Exchange` of exchange.h: one book for each symbol, and the symbol of each order.
pub mod Routing
pub mod Changes
pub mod Live
pub mod Quiet
pub mod Loads
pub mod Market
pub mod Agrees
pub mod Operations
pub mod Lines
use order_matching_engine.Base.{
  ℕ, none, some, List, [], ◌∷◌, ◌++◌, if◌then◌else◌, Text, text_beq, nat_key, text_key, Option,
}
use order_matching_engine.Base.Exec.{Exec, ok, ◌>>=◌}
use order_matching_engine.Base.Int.{ℤ}
use order_matching_engine.Base.Dict.{Dict, lookup, insert, erase}
use order_matching_engine.Order.{Price, Order}
use order_matching_engine.Report.{
  Report, cancel_unknown, modify_unknown, modify_wrong_symbol, book_unknown, no_symbols,
  symbol_stats,
}
use order_matching_engine.OrderBook
use order_matching_engine.OrderBook.{OrderBook, empty_book, get_stats}

pub record Exchange (P : Type 0) : Type 0 where
  pub books : Dict Text (OrderBook P)
  pub order_symbol_map : Dict ℕ Text

abbrev pub empty_exchange : {P : Type 0} → Exchange P
empty_exchange = record { books = []; order_symbol_map = [] }

-- `books[symbol]`, which makes an empty book for a new symbol.
abbrev pub book_or_empty : {P : Type 0} → Option (OrderBook P) → OrderBook P
book_or_empty none = empty_book
book_or_empty (some b) = b

abbrev pub book_at : {P : Type 0} → Text → Dict Text (OrderBook P) → OrderBook P
book_at symbol books = book_or_empty (lookup symbol books)

-- A reference into `books` that a call has changed.
abbrev pub put_book : {P : Type 0} → Text → OrderBook P → Exchange P → Exchange P
put_book symbol b ex = record ex { books = insert symbol b ex.books }

module _ {P : Type 0} ⦃d : Price P⦄ where
  unfoldable pub add_order : Text → Order P → Exchange P → List (Report P) × Exchange P
  add_order symbol o ex =
      let r = OrderBook.add_order o (book_at symbol ex.books) in
      let ex' = put_book symbol r.1 ex in
      (r.0, record ex' { order_symbol_map = insert o.order_id symbol ex'.order_symbol_map })

  unfoldable pub cancel_order : ℕ → Exchange P → Exec (List (Report P) × Exchange P)
  cancel_order id ex = elim (lookup id ex.order_symbol_map) [
    | none ↦ ok (cancel_unknown id ∷ [], ex)
    | some symbol ↦ do
      r ← OrderBook.cancel_order id (book_at symbol ex.books)
      let ex' = put_book symbol r.1 ex
      ok (r.0, record ex' { order_symbol_map = erase id ex'.order_symbol_map })
  ]

  unfoldable pub modify_order :
      ℕ → Text → ℤ → P → ℤ → Exchange P → Exec (List (Report P) × Exchange P)
  modify_order id symbol new_qty new_price timestamp ex = elim (lookup id ex.order_symbol_map) [
    | none ↦ ok (modify_unknown id ∷ [], ex)
    | some actual ↦
        if text_beq actual symbol
        then (do
          r ← OrderBook.modify_order id new_qty new_price timestamp (book_at symbol ex.books)
          ok (r.0, put_book symbol r.1 ex))
        else ok (modify_wrong_symbol id actual symbol ∷ [], ex)
  ]

  unfoldable pub match_orders : Text → Exchange P → Exec (List (Report P) × Exchange P)
  match_orders symbol ex = elim (lookup symbol ex.books) [
    | none ↦ ok ([], ex)
    | some b ↦ do r ← OrderBook.match_orders b; ok (r.0, put_book symbol r.1 ex)
  ]

  unfoldable pub print_book : Text → Exchange P → Exec (List (Report P))
  print_book symbol ex = elim (lookup symbol ex.books) [
    | none ↦ ok (book_unknown symbol ∷ [])
    | some b ↦ OrderBook.print_book symbol b
  ]

  abbrev stats_lines : Dict Text (OrderBook P) → List (Report P)
  stats_lines [] = []
  stats_lines ((symbol, b) ∷ books) =
      let s = get_stats b in
      symbol_stats symbol s.total_orders s.total_trades s.total_volume ∷ stats_lines books

  abbrev no_symbols_line : Dict Text (OrderBook P) → List (Report P)
  no_symbols_line [] = no_symbols ∷ []
  no_symbols_line (_ ∷ _) = []

  unfoldable pub print_stats : Exchange P → List (Report P)
  print_stats ex = no_symbols_line ex.books ++ stats_lines ex.books
