-- ===== src/OrderBook/Lines.antt =====
-- Which of the printed lines are about orders; the others show a book or the statistics.
use order_matching_engine.Base.{
  ◌≡◌, refl, ap, ◌∙◌, inl, inr, Bool, true, false, List, [], ◌∷◌, ◌++◌, map, if◌then◌else◌,
  Bool-cases, Text,
}
use order_matching_engine.Order.{Price}
use order_matching_engine.Report.{
  Report, book_title, bids_title, asks_title, level_line, empty_side, book_unknown, no_symbols,
  symbol_stats,
}
use order_matching_engine.Levels.{Level}
use order_matching_engine.OrderBook.{or_empty, title}
use order_matching_engine.OrderBook.Depth.{depth_line}

module _ {P : Type 0} where
  abbrev pub is_order_line : Report P → Bool
  is_order_line (book_title symbol) = false
  is_order_line bids_title = false
  is_order_line asks_title = false
  is_order_line (level_line p q n) = false
  is_order_line empty_side = false
  is_order_line (book_unknown symbol) = false
  is_order_line no_symbols = false
  is_order_line (symbol_stats symbol n k v) = false
  is_order_line _ = true

  abbrev pub order_only : List (Report P) → List (Report P)
  order_only [] = []
  order_only (r ∷ rs) = if is_order_line r then r ∷ order_only rs else order_only rs

  pub order_only-append :
      (rs ss : List (Report P)) → order_only (rs ++ ss) ≡ order_only rs ++ order_only ss
  order_only-append [] ss = refl
  order_only-append (r ∷ rs) ss = elim (Bool-cases (is_order_line r)) [
    | inl e ↦ rw e (ap (◌∷◌ r) (order_only-append rs ss))
    | inr e ↦ rw e (order_only-append rs ss)
  ]

module _ {P : Type 0} ⦃d : Price P⦄ where
  levels_only : (ls : List (Level P)) → order_only (or_empty (map depth_line ls)) ≡ []
  levels_only [] = refl
  levels_only (l ∷ ls) = later ls
    where
      later : (ms : List (Level P)) → order_only (map depth_line ms) ≡ []
      later [] = refl
      later (m ∷ ms) = later ms

  sides_only :
      (bids asks : List (Level P))
      → order_only (or_empty (map depth_line bids) ++ asks_title ∷ or_empty (map depth_line asks))
        ≡ []
  sides_only bids asks =
      order_only-append (or_empty (map depth_line bids))
        (asks_title ∷ or_empty (map depth_line asks))
      ∙ rw (levels_only bids) (levels_only asks)

  -- What BOOK prints of a book has no line about an order.
  pub book_lines_only :
      (symbol : Text) (bids asks : List (Level P))
      → order_only (
          title symbol
          ++ bids_title ∷ or_empty (map depth_line bids)
          ++ asks_title ∷ or_empty (map depth_line asks))
        ≡ []
  book_lines_only [] bids asks = sides_only bids asks
  book_lines_only (c ∷ s) bids asks = sides_only bids asks
