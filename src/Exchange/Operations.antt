-- ===== src/Exchange/Operations.antt =====
-- The operations of the exchange, against those of the market.
use order_matching_engine.Base.{
  ℕ, suc, ◌+◌, ◌≡◌, refl, ap, ◌∙◌, sym, subst, inl, inr, Option, none, some, List, [], arith, eqb,
  if◌then◌else◌, Bool-cases, Text, text_beq, text_beq_iff, length, nat_key, text_key,
}
use order_matching_engine.Base.Exec.{Returns, Returns-map}
use order_matching_engine.Base.Int.{ℤ}
use order_matching_engine.Base.Dict.{lookup, lookup-insert}
use order_matching_engine.Order.{Price, IsOrdered, Order}
use order_matching_engine.OrderBook
use order_matching_engine.Report.{Report}
use order_matching_engine.OrderBook.{OrderBook}
use order_matching_engine.OrderBook.Engine.{Crossings}
use order_matching_engine.OrderBook.Spec
use order_matching_engine.OrderBook.Spec.{PriorityBook, view}
use order_matching_engine.Exchange.{Exchange, empty_exchange, book_at, add_order}
use order_matching_engine.Exchange.Routing.{IsValid, add_order-Added, CancelOk}
use order_matching_engine.Exchange.Changes.{ModifyOk, MatchOk}
use order_matching_engine.Exchange.Market.{
  Market, empty_market, cross_all, settle, place_new, cancel_known, modify_known,
}
use order_matching_engine.Base.Exec.{Returns, Returns-map}
use order_matching_engine.Exchange.{cancel_order, match_orders, modify_order}
use order_matching_engine.Exchange.Routing.{cancel_order-CancelOk}
use order_matching_engine.Exchange.Changes.{modify_order-ModifyOk, match_orders-MatchOk}
use order_matching_engine.Exchange.Live.{IsLive, BookLots-resting}
use order_matching_engine.Exchange.Agrees.{Agrees, Does, books-with_book, Crossings-cross_all}

module _ {P : Type 0} ⦃d : Price P⦄ where
  pub empty_exchange-Agrees : Agrees {P = P} empty_exchange empty_market
  unfolding lookup
  empty_exchange-Agrees = record { books = λ s. refl; symbols = λ id. refl }

  module _ (laws : IsOrdered P) where
    pub add_order-Does :
        (symbol : Text) (o : Order P) (ex : Exchange P) (m : Market P)
        → IsValid ex
        → lookup o.order_id ex.order_symbol_map ≡ none
        → Agrees ex m
        → Does (place_new symbol o m) (add_order symbol o ex)
    unfolding add_order OrderBook.add_order
    add_order-Does symbol o ex m v new h =
        let a = add_order-Added laws symbol o ex v new in
        (
          refl,
          record {
            books =
                books-with_book symbol ex (add_order symbol o ex).1 m
                  (Spec.add o (m.book_of symbol)) a.others h
                  (a.book ∙ ap (Spec.add o) (h.books symbol));
            symbols = λ i.
                lookup-insert o.order_id i symbol ex.order_symbol_map
                ∙ ap (λ k. if eqb o.order_id i then some symbol else k) (h.symbols i);
          },
        )

    MatchOk-Does :
        (symbol : Text) (ex : Exchange P) (m : Market P)
        → Agrees ex m
        → (o : Option (OrderBook P)) → lookup symbol ex.books ≡ o
        → (r : List (Report P) × Exchange P) → MatchOk laws symbol o ex r × IsValid r.1
        → Does (settle symbol m) r
    unfolding cross_all
    MatchOk-Does symbol ex m h none e r k =
        let nothing : m.book_of symbol ≡ record { bids = []; asks = [] } =
          sym (h.books symbol) ∙ rw e refl in
        subst (Does (settle symbol m)) (sym k.0) (
          rw nothing (
            refl,
            record {
              books =
                  books-with_book symbol ex ex m (record { bids = []; asks = [] }) (λ s ne. refl) h
                    (rw e refl);
              symbols = h.symbols;
            },
          ))
    MatchOk-Does symbol ex m h (some b) e r k =
        let s = m.book_of symbol in
        let same : view b ≡ s = rw e at (h.books symbol) in
        let c = subst (λ t. Crossings t r.0 (view (book_at symbol r.1.books))) same k.0.0 in
        let all = Crossings-cross_all (suc (length s.bids + length s.asks)) c (omega arith) in
        rw all (
          refl,
          record {
            books = books-with_book symbol ex r.1 m (view (book_at symbol r.1.books)) k.0.2 h refl;
            symbols = λ i. rw k.0.3 (h.symbols i);
          },
        )

    CancelOk-Does :
        (id : ℕ) (o : Option Text) (ex : Exchange P) (m : Market P)
        → Agrees ex m
        → (r : List (Report P) × Exchange P) → CancelOk laws id o ex r × IsValid r.1
        → Does (cancel_known id o m) r
    CancelOk-Does id none ex m h r k = subst (Does (cancel_known id none m)) (sym k.0) (refl, h)
    CancelOk-Does id (some symbol) ex m h r k =
        let e = k.0.0 ∙ ap (Spec.cancel id) (h.books symbol) in
        (
          (λ i. (e i).0),
          record {
            books =
                books-with_book symbol ex r.1 m (Spec.cancel id (m.book_of symbol)).1 k.0.1 h
                  (λ i. (e i).1);
            symbols = λ i. k.0.2 i ∙ ap (λ l. if eqb id i then none else l) (h.symbols i);
          },
        )

    ModifyOk-Does :
        (id : ℕ) (symbol : Text) (q : ℤ) (p : P) (timestamp : ℤ) (o : Option Text) (ex : Exchange P)
        (m : Market P)
        → Agrees ex m
        → (r : List (Report P) × Exchange P) → ModifyOk id symbol q p timestamp o ex r × IsValid r.1
        → Does (modify_known id symbol q p timestamp o m) r
    ModifyOk-Does id symbol q p timestamp none ex m h r k =
        subst (Does (modify_known id symbol q p timestamp none m)) (sym k.0) (refl, h)
    ModifyOk-Does id symbol q p timestamp (some actual) ex m h r (inr (ne, e), v) =
        elim (Bool-cases (text_beq actual symbol)) [
          | inl same ↦ absurd (ne ((text_beq_iff actual symbol).0 same))
          | inr other ↦
              subst (Does (modify_known id symbol q p timestamp (some actual) m)) (sym e)
                (rw other (refl, h))
        ]
    ModifyOk-Does id symbol q p timestamp (some actual) ex m h r (inl (same, changed), v) =
        let beq = (text_beq_iff actual symbol).1 same in
        let e = changed.0 ∙ ap (Spec.modify id q p timestamp) (h.books symbol) in
        rw beq (
          (λ i. (e i).0),
          record {
            books =
                books-with_book symbol ex r.1 m (Spec.modify id q p timestamp (m.book_of symbol)).1
                  changed.1 h (λ i. (e i).1);
            symbols = λ i. rw changed.2 (h.symbols i);
          },
        )

    pub match_orders-Does :
        (symbol : Text) (ex : Exchange P) (m : Market P)
        → IsValid ex
        → IsLive ex
        → Agrees ex m
        → Returns (Does (settle symbol m)) (match_orders symbol ex)
    match_orders-Does symbol ex m v live h =
        Returns-map _ _ (match_orders symbol ex)
          (match_orders-MatchOk laws symbol ex v
            (BookLots-resting (book_at symbol ex.books) (live symbol)))
          (MatchOk-Does symbol ex m h (lookup symbol ex.books) refl)

    pub cancel_order-Does :
        (id : ℕ) (ex : Exchange P) (m : Market P)
        → IsValid ex
        → Agrees ex m
        → Returns (Does (cancel_known id (m.symbol_of id) m)) (cancel_order id ex)
    cancel_order-Does id ex m v h =
        subst (λ o. Returns (Does (cancel_known id o m)) (cancel_order id ex)) (h.symbols id)
          (Returns-map _ _ (cancel_order id ex) (cancel_order-CancelOk laws id ex v)
            (CancelOk-Does id (lookup id ex.order_symbol_map) ex m h))

    pub modify_order-Does :
        (id : ℕ) (symbol : Text) (q : ℤ) (p : P) (timestamp : ℤ) (ex : Exchange P) (m : Market P)
        → IsValid ex
        → Agrees ex m
        → Returns
            (Does (modify_known id symbol q p timestamp (m.symbol_of id) m))
            (modify_order id symbol q p timestamp ex)
    modify_order-Does id symbol q p timestamp ex m v h =
        let call = modify_order id symbol q p timestamp ex in
        subst (λ o. Returns (Does (modify_known id symbol q p timestamp o m)) call) (h.symbols id)
          (Returns-map _ _ call (modify_order-ModifyOk laws id symbol q p timestamp ex v)
            (ModifyOk-Does id symbol q p timestamp (lookup id ex.order_symbol_map) ex m h))
