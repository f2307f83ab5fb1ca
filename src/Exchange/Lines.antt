-- ===== src/Exchange/Lines.antt =====
-- The lines that the market and the statistics print.
use order_matching_engine.Base.{
  ℕ, zero, suc, ◌≡◌, refl, ap₂, ◌∙◌, subst, inl, inr, true, Option, none, some, List, [], ◌∷◌, ◌++◌,
  Bool-cases, Option-cases, Text, text_beq, ◌&&◌,
}
use order_matching_engine.Base.Int.{ℤ, ltb_ℤ}
use order_matching_engine.Base.Dict.{Dict}
use order_matching_engine.Order.{
  Price, Order, CommandType, new, cancel, modify, stats, book, Command,
}
use order_matching_engine.Report.{Report}
use order_matching_engine.OrderBook.{OrderBook}
use order_matching_engine.OrderBook.Lines.{is_order_line, order_only, order_only-append}
use order_matching_engine.OrderBook.Spec
use order_matching_engine.OrderBook.Spec.{PriorityBook}
use order_matching_engine.Exchange.{Exchange, print_stats, stats_lines, no_symbols_line}
use order_matching_engine.Exchange.Market.{
  Market, cross_all, settle, place_new, order_in, cancel_known, modify_known, then_settle,
  carry_out,
}

-- All lines are about orders.
abbrev IsOrderly : {P : Type 0} → List (Report P) → Type 0
IsOrderly rs = order_only rs ≡ rs

IsOrderly-append :
    {P : Type 0} (rs ss : List (Report P)) → IsOrderly rs → IsOrderly ss → IsOrderly (rs ++ ss)
IsOrderly-append rs ss h k = order_only-append rs ss ∙ ap₂ (λ x y. x ++ y) h k

module _ {P : Type 0} ⦃d : Price P⦄ where
  -- STATS prints no line about an order.
  pub print_stats-lines : (ex : Exchange P) → order_only (print_stats ex) ≡ []
  unfolding print_stats
  print_stats-lines ex =
      order_only-append (no_symbols_line ex.books) (stats_lines ex.books)
      ∙ ap₂ (λ x y. x ++ y) (first ex.books) (each ex.books)
    where
      first : (books : Dict Text (OrderBook P)) → order_only (no_symbols_line books) ≡ []
      first [] = refl
      first (b ∷ books) = refl

      each : (books : Dict Text (OrderBook P)) → order_only (stats_lines books) ≡ []
      each [] = refl
      each ((symbol, b) ∷ books) = each books

  abbrev IsTrade : Option (Report P × PriorityBook P) → Type 0
  IsTrade none = Unit
  IsTrade (some (r, t)) = is_order_line r ≡ true

  fronts-IsTrade : (bids asks : List (Order P)) → IsTrade (Spec.cross_fronts bids asks)
  fronts-IsTrade [] asks = tt
  fronts-IsTrade (b ∷ bids) [] = tt
  fronts-IsTrade (b ∷ bids) (a ∷ asks) = elim (Bool-cases (d.lt b.price a.price)) [
    | inl apart ↦ rw apart tt
    | inr crosses ↦ rw crosses refl
  ]

  cross_all-IsOrderly : (n : ℕ) (s : PriorityBook P) → IsOrderly (cross_all n s).0
  unfolding cross_all
  cross_all-IsOrderly zero s = refl
  cross_all-IsOrderly (suc n) s = elim (Option-cases (Spec.cross s)) [
    | inl e ↦ rw (e, cross_all) refl
    | inr (o, e) ↦
        let about : is_order_line o.0 ≡ true = subst IsTrade e (fronts-IsTrade s.bids s.asks) in
        rw (e, cross_all, about) (ap₂ (λ x y. x ∷ y) refl (cross_all-IsOrderly n o.1))
  ]

  then_settle-IsOrderly :
      (symbol : Text) (a : List (Report P) × Market P)
      → IsOrderly a.0
      → IsOrderly (then_settle symbol a).0
  then_settle-IsOrderly symbol a h =
      IsOrderly-append a.0 (settle symbol a.1).0 h (cross_all-IsOrderly _ (a.1.book_of symbol))

  cancel_known-IsOrderly :
      (id : ℕ) (o : Option Text) (m : Market P) → IsOrderly (cancel_known id o m).0
  cancel_known-IsOrderly id none m = refl
  cancel_known-IsOrderly id (some symbol) m = found (Spec.find id (m.book_of symbol))
    where
      found : (o : Option (Order P)) → IsOrderly (Spec.cancel_found id o (m.book_of symbol)).0
      found none = refl
      found (some o) = refl

  modify_known-IsOrderly :
      (id : ℕ) (symbol : Text) (q : ℤ) (p : P) (timestamp : ℤ) (o : Option Text) (m : Market P)
      → IsOrderly (modify_known id symbol q p timestamp o m).0
  modify_known-IsOrderly id symbol q p timestamp none m = refl
  modify_known-IsOrderly id symbol q p timestamp (some actual) m =
      elim (Bool-cases (text_beq actual symbol)) [
        | inl same ↦ rw same (found (Spec.find id (m.book_of symbol)))
        | inr other ↦ rw other refl
      ]
    where
      found :
          (o : Option (Order P))
          → IsOrderly (Spec.modify_found id q p timestamp o (m.book_of symbol)).0
      found none = refl
      found (some o) = elim (Bool-cases (d.eq p o.price && ltb_ℤ q o.quantity)) [
        | inl smaller ↦ rw smaller refl
        | inr replaced ↦ rw replaced refl
      ]

  carry_out_type-IsOrderly :
      (type : CommandType) (cmd : Command P) (m : Market P)
      → IsOrderly (carry_out (record cmd { type = type }) m).0
  carry_out_type-IsOrderly new cmd m =
      then_settle-IsOrderly cmd.symbol (place_new cmd.symbol (order_in cmd) m) refl
  carry_out_type-IsOrderly cancel cmd m =
      cancel_known-IsOrderly cmd.order_id (m.symbol_of cmd.order_id) m
  carry_out_type-IsOrderly modify cmd m =
      then_settle-IsOrderly cmd.symbol
        (modify_known cmd.order_id cmd.symbol cmd.quantity cmd.price cmd.timestamp
          (m.symbol_of cmd.order_id) m)
        (modify_known-IsOrderly cmd.order_id cmd.symbol cmd.quantity cmd.price cmd.timestamp
          (m.symbol_of cmd.order_id) m)
  carry_out_type-IsOrderly stats cmd m = refl
  carry_out_type-IsOrderly book cmd m = refl

  -- Every line of the market is about an order.
  pub carry_out-lines :
      (cmd : Command P) (m : Market P) → order_only (carry_out cmd m).0 ≡ (carry_out cmd m).0
  carry_out-lines cmd m = carry_out_type-IsOrderly cmd.type cmd m
