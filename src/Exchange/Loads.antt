-- ===== src/Exchange/Loads.antt =====
-- How many orders each book of the exchange has, and how large they are.
use order_matching_engine.Base.{
  refl, [], ℕ, suc, ◌*◌, ◌<◌, ◌≡◌, refl, sym, subst, inl, inr, Option, none, some, List,
  Option-cases, Text, nat_key, text_key, arith,
}
use order_matching_engine.Base.Exec.{Returns, Returns-map}
use order_matching_engine.Base.Int.{ℤ, int_limit}
use order_matching_engine.Base.Dict.{lookup}
use order_matching_engine.Order.{Price, IsOrdered, Order}
use order_matching_engine.Report.{Report}
use order_matching_engine.OrderBook.{OrderBook, resting}
use order_matching_engine.OrderBook.Lots.{Lots}
use order_matching_engine.OrderBook.Conserve.{resting-OrderLots}
use order_matching_engine.OrderBook.Load.{
  IsUpTo, Load, Load-mono, Load-add, Load-cancel, Load-modify, Load-Crossings, print_book-Load,
}
use order_matching_engine.OrderBook.Lines.{order_only}
use order_matching_engine.OrderBook.Spec.{view}
use order_matching_engine.Exchange.{
  Exchange, empty_exchange, book_at, add_order, match_orders, print_book,
}
use order_matching_engine.Exchange.Routing.{IsValid, add_order-Added, CancelOk}
use order_matching_engine.Exchange.Changes.{ModifyOk, MatchOk, match_orders-MatchOk}
use order_matching_engine.Exchange.Live.{IsLive, BookLots-resting, OthersKept-every}

module _ {P : Type 0} ⦃d : Price P⦄ where
  -- At most `n` orders on each side of each book, each of at most `top`.
  abbrev pub IsLoaded : ℕ → ℕ → Exchange P → Type 0
  IsLoaded n top ex = (symbol : Text) → Load n top (view (book_at symbol ex.books))

  pub IsLoaded-mono : (n top : ℕ) (ex : Exchange P) → IsLoaded n top ex → IsLoaded (suc n) top ex
  IsLoaded-mono n top ex h s = Load-mono n top (view (book_at s ex.books)) (h s)

  module _ (laws : IsOrdered P) (n top : ℕ) where
    pub add_order-IsLoaded :
        (symbol : Text) (o : Order P) (ex : Exchange P)
        → IsValid ex
        → lookup o.order_id ex.order_symbol_map ≡ none
        → IsUpTo top o.quantity
        → IsLoaded n top ex
        → IsLoaded (suc n) top (add_order symbol o ex).1
    add_order-IsLoaded symbol o ex v new q h =
        let a = add_order-Added laws symbol o ex v new in
        OthersKept-every (Load (suc n) top) symbol ex (add_order symbol o ex).1 a.others
          (IsLoaded-mono n top ex h)
          (subst (Load (suc n) top) (sym a.book)
            (Load-add n top o (view (book_at symbol ex.books)) q (h symbol)))

    MatchOk-IsLoaded :
        (symbol : Text) (ex : Exchange P)
        → IsLoaded n top ex
        → Lots (resting (book_at symbol ex.books))
        → (o : Option (OrderBook P)) → lookup symbol ex.books ≡ o
        → (r : List (Report P) × Exchange P) → MatchOk laws symbol o ex r × IsValid r.1
        → IsLoaded n top r.1
    MatchOk-IsLoaded symbol ex h lots none e r m = subst (λ k. IsLoaded n top k.1) (sym m.0) h
    MatchOk-IsLoaded symbol ex h lots (some b) e r m =
        let l = resting-OrderLots laws b (rw e at lots) in
        OthersKept-every (Load n top) symbol ex r.1 m.0.2 h
          (Load-Crossings laws n top m.0.0 l.0 l.1 (rw e at (h symbol)))

    -- Matching one symbol leaves no more orders, and no larger ones.
    pub match_orders-IsLoaded :
        (symbol : Text) (ex : Exchange P)
        → IsValid ex
        → Lots (resting (book_at symbol ex.books))
        → IsLoaded n top ex
        → Returns (λ r. IsLoaded n top r.1) (match_orders symbol ex)
    match_orders-IsLoaded symbol ex v lots h =
        Returns-map _ _ (match_orders symbol ex) (match_orders-MatchOk laws symbol ex v lots)
          (MatchOk-IsLoaded symbol ex h lots (lookup symbol ex.books) refl)

    pub CancelOk-IsLoaded :
        (id : ℕ) (o : Option Text) (ex : Exchange P)
        → IsLoaded n top ex
        → (r : List (Report P) × Exchange P) → CancelOk laws id o ex r × IsValid r.1
        → IsLoaded (suc n) top r.1
    CancelOk-IsLoaded id none ex h r m =
        subst (λ k. IsLoaded (suc n) top k.1) (sym m.0) (IsLoaded-mono n top ex h)
    CancelOk-IsLoaded id (some symbol) ex h r m =
        OthersKept-every (Load (suc n) top) symbol ex r.1 m.0.1 (IsLoaded-mono n top ex h) (
          subst (Load (suc n) top) (λ i. (sym m.0.0 i).1)
            (Load-cancel n top id (view (book_at symbol ex.books)) (h symbol)))

    pub ModifyOk-IsLoaded :
        (id : ℕ) (symbol : Text) (q : ℤ) (p : P) (timestamp : ℤ) (o : Option Text) (ex : Exchange P)
        → IsUpTo top q
        → IsLoaded n top ex
        → (r : List (Report P) × Exchange P) → ModifyOk id symbol q p timestamp o ex r × IsValid r.1
        → IsLoaded (suc n) top r.1
    ModifyOk-IsLoaded id symbol q p timestamp none ex u h r m =
        subst (λ k. IsLoaded (suc n) top k.1) (sym m.0) (IsLoaded-mono n top ex h)
    ModifyOk-IsLoaded id symbol q p timestamp (some actual) ex u h r (inr other, v) =
        subst (λ k. IsLoaded (suc n) top k.1) (sym other.1) (IsLoaded-mono n top ex h)
    ModifyOk-IsLoaded id symbol q p timestamp (some actual) ex u h r (inl (same, changed), v) =
        OthersKept-every (Load (suc n) top) symbol ex r.1 changed.1 (IsLoaded-mono n top ex h) (
          subst (Load (suc n) top) (λ i. (sym changed.0 i).1)
            (Load-modify n top id q p timestamp (view (book_at symbol ex.books)) u (h symbol)))

  -- `printBook` of any symbol returns, when the sum of so many orders of that size is an `int`, and prints
  -- no line about an order.
  pub print_book-Returns :
      (n top : ℕ) (symbol : Text) (ex : Exchange P)
      → IsLive ex
      → IsLoaded n top ex
      → n * top < int_limit
      → Returns (λ lines. order_only lines ≡ []) (print_book symbol ex)
  unfolding print_book
  print_book-Returns n top symbol ex live h f = elim (Option-cases (lookup symbol ex.books)) [
    | inl e ↦ rw (e, print_book) refl
    | inr (b, e) ↦
        let at = BookLots-resting (book_at symbol ex.books) (live symbol) in
        rw (e, print_book) (print_book-Load n top symbol b (rw e at at) (rw e at (h symbol)) f)
  ]

pub empty_exchange-IsLoaded :
    (P : Type 0) (top : ℕ) ⦃d : Price P⦄ → IsLoaded {P = P} 0 top empty_exchange
unfolding lookup
empty_exchange-IsLoaded P top symbol = ((omega arith, omega arith), (tt, tt))
