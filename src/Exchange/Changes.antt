-- ===== src/Exchange/Changes.antt =====
-- `Exchange::modifyOrder` and `Exchange::matchOrders`: the book of the symbol changes, nothing else.
use mathlib.Core.Bool.{false≢true}
use order_matching_engine.Base.{
  ℕ, ◌≡◌, refl, ◌∙◌, sym, subst, ◌≢◌, ◌⊎◌, inl, inr, Option, none, some, List, [], ◌∷◌, Bool-cases,
  Option-cases, Text, text_beq, text_beq_iff, text_key, nat_key,
}
use order_matching_engine.Base.Exec.{Returns, Returns->>=}
use order_matching_engine.Base.Int.{ℤ}
use order_matching_engine.Base.Dict.{lookup}
use order_matching_engine.Order.{Price, IsOrdered}
use order_matching_engine.Report.{Report, modify_unknown, modify_wrong_symbol}
use order_matching_engine.OrderBook.{OrderBook, resting}
use order_matching_engine.OrderBook.Lots.{Lots}
use order_matching_engine.OrderBook.Refine.{Refines}
use order_matching_engine.OrderBook.Modify.{modify_order-Refines}
use order_matching_engine.OrderBook.Engine.{Crossings, Matched, match_orders-Matched}
use order_matching_engine.OrderBook.Ids.{Has, Has-modify, Has-Crossings}
use order_matching_engine.OrderBook.Spec
use order_matching_engine.OrderBook.Spec.{view}
use order_matching_engine.Exchange.{Exchange, book_at, put_book, modify_order, match_orders}
use order_matching_engine.Exchange.Routing.{
  IsValid, OthersKept, put_book-OthersKept, put-IsValid, book_at-put, book_at-IsValid,
  book_at-registered,
}

module _ {P : Type 0} ⦃d : Price P⦄ where
  abbrev pub RightSymbol : ℕ → Text → ℤ → P → ℤ → Exchange P → List (Report P) × Exchange P → Type 0
  RightSymbol id symbol q p timestamp ex r =
      ((r.0, view (book_at symbol r.1.books))
        ≡ Spec.modify id q p timestamp (view (book_at symbol ex.books)))
      × OthersKept symbol ex r.1
      × (r.1.order_symbol_map ≡ ex.order_symbol_map)

  -- What `modifyOrder` does, by the symbol that the exchange has for the id.
  abbrev pub ModifyOk :
      ℕ → Text → ℤ → P → ℤ → Option Text → Exchange P → List (Report P) × Exchange P → Type 0
  ModifyOk id symbol q p timestamp none ex r = r ≡ (modify_unknown id ∷ [], ex)
  ModifyOk id symbol q p timestamp (some actual) ex r =
      ((actual ≡ symbol) × RightSymbol id symbol q p timestamp ex r)
      ⊎ ((actual ≢ symbol) × (r ≡ (modify_wrong_symbol id actual symbol ∷ [], ex)))

  module _ (laws : IsOrdered P) where
    modified_put :
        (id : ℕ) (symbol : Text) (q : ℤ) (p : P) (timestamp : ℤ) (ex : Exchange P)
        → IsValid ex
        → (r : List (Report P) × OrderBook P)
        → Refines (Spec.modify id q p timestamp (view (book_at symbol ex.books))) r
        → RightSymbol id symbol q p timestamp ex (r.0, put_book symbol r.1 ex)
          × IsValid (put_book symbol r.1 ex)
    modified_put id symbol q p timestamp ex v r h = (
      (rw (book_at-put symbol r.1 ex) h.0, put_book-OthersKept symbol r.1 ex, refl),
      put-IsValid symbol r.1 _ ex v h.1
          (λ i k.
            book_at-registered symbol i ex v
              (Has-modify i id q p timestamp _ (subst (Has i) (λ j. (h.0 j).1) k)))
          (λ t i ne f. f),
    )

    -- On a valid exchange, `Exchange::modifyOrder` returns: it modifies the order in the book of its
    -- symbol, as the abstract modify says, and leaves the other books and the registered ids alone; it
    -- rejects an unknown id, and a symbol other than the registered one, with no change. The exchange
    -- stays valid.
    -- The order of the prices is `IsOrdered`.
    pub modify_order-ModifyOk :
        (id : ℕ) (symbol : Text) (q : ℤ) (p : P) (timestamp : ℤ) (ex : Exchange P)
        → IsValid ex
        → Returns
            (λ r.
              ModifyOk id symbol q p timestamp (lookup id ex.order_symbol_map) ex r × IsValid r.1)
            (modify_order id symbol q p timestamp ex)
    unfolding modify_order
    modify_order-ModifyOk id symbol q p timestamp ex v =
        elim (Option-cases (lookup id ex.order_symbol_map)) [
          | inl e ↦ rw (e, modify_order) (refl, v)
          | inr (actual, e) ↦ elim (Bool-cases (text_beq actual symbol)) [
            | inl same ↦
                rw (e, modify_order, same)
                  (Returns->>=
                    (Refines (Spec.modify id q p timestamp (view (book_at symbol ex.books)))) _ _ _
                    (modify_order-Refines laws id q p timestamp (book_at symbol ex.books)
                      (book_at-IsValid symbol ex v))
                    (λ r h.
                      let m = modified_put id symbol q p timestamp ex v r h in
                      (inl ((text_beq_iff actual symbol).0 same, m.0), m.1)))
            | inr other ↦
                rw (e, modify_order, other)
                  (inr (λ a. false≢true (sym other ∙ (text_beq_iff actual symbol).1 a), refl), v)
          ]
        ]

    -- What `matchOrders` of a symbol does to the exchange.
    abbrev pub MatchOk :
        Text → Option (OrderBook P) → Exchange P → List (Report P) × Exchange P → Type 0
    MatchOk symbol none ex r = r ≡ ([], ex)
    MatchOk symbol (some b) ex r =
        Crossings (view b) r.0 (view (book_at symbol r.1.books))
        × Lots (resting (book_at symbol r.1.books))
        × OthersKept symbol ex r.1
        × (r.1.order_symbol_map ≡ ex.order_symbol_map)

    Matched-put :
        (symbol : Text) (ex : Exchange P) {b : OrderBook P}
        → IsValid ex
        → lookup symbol ex.books ≡ some b
        → (r : List (Report P) × OrderBook P) → Matched b r
        → MatchOk symbol (some b) ex (r.0, put_book symbol r.1 ex)
          × IsValid (put_book symbol r.1 ex)
    Matched-put symbol ex v e r m = (
      rw (book_at-put symbol r.1 ex) (m.0, m.2, put_book-OthersKept symbol r.1 ex, refl),
      put-IsValid symbol r.1 _ ex v m.1 (λ i k. v.registered symbol i e (Has-Crossings i m.0 k))
          (λ t i ne f. f),
    )

    -- On a valid exchange where the orders of the symbol's book are live, `Exchange::matchOrders`
    -- returns: it runs the abstract crossing on that book alone, if there is one, leaves live orders in
    -- it, leaves the other books and the registered ids alone, and keeps the exchange valid.
    -- The order of the prices is `IsOrdered`.
    pub match_orders-MatchOk :
        (symbol : Text) (ex : Exchange P)
        → IsValid ex
        → Lots (resting (book_at symbol ex.books))
        → Returns
            (λ r. MatchOk symbol (lookup symbol ex.books) ex r × IsValid r.1)
            (match_orders symbol ex)
    unfolding match_orders
    match_orders-MatchOk symbol ex v lots = elim (Option-cases (lookup symbol ex.books)) [
      | inl e ↦ rw (e, match_orders) (refl, v)
      | inr (b, e) ↦
          rw (e, match_orders)
            (Returns->>= (Matched b) _ _ _
              (match_orders-Matched laws b (v.books_valid symbol e) (rw e at lots))
              (Matched-put symbol ex v e))
    ]
