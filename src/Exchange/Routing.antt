-- ===== src/Exchange/Routing.antt =====
-- The exchange keeps every book valid and every resting order registered under its book's symbol, and
-- an operation on one symbol leaves the books of the others alone.
use mathlib.Core.Option.{some-injective, none-ne-some}
use mathlib.Core.Bool.{false≢true}
use order_matching_engine.Base.{
  ℕ, ◌≡◌, refl, ◌∙◌, sym, subst, ◌≢◌, ◌⊎◌, inl, inr, Option, none, some, List, [], ◌∷◌, arith,
  if◌then◌else◌, Bool-cases, Option-cases, Text, text_beq, text_beq_iff, text_key, nat_key, eqb_iff,
  eqb,
}
use order_matching_engine.Base.Exec.{Returns, Returns->>=}
use order_matching_engine.Base.Dict.{Dict, lookup, erase, lookup-insert, lookup-erase}
use order_matching_engine.Order.{Price, Order, IsOrdered}
use order_matching_engine.Report.{Report, cancel_unknown}
use order_matching_engine.OrderBook
use order_matching_engine.OrderBook.{OrderBook, resting, empty_book}
use order_matching_engine.OrderBook.Invariant.{empty_book-IsValid}
use order_matching_engine.OrderBook.Invariant
use order_matching_engine.OrderBook.Refine.{Refines, add_order-Refines, cancel_order-Refines}
use order_matching_engine.OrderBook.Ids.{Has, find-none, Has-add, Has-cancel}
use order_matching_engine.OrderBook.Spec
use order_matching_engine.OrderBook.Spec.{view}
use order_matching_engine.Exchange.{
  Exchange, empty_exchange, book_at, put_book, add_order, cancel_order,
}

module _ {P : Type 0} ⦃d : Price P⦄ where
  pub record IsValid (ex : Exchange P) : Type 0 where
    pub books_valid :
        (symbol : Text) {b : OrderBook P} → lookup symbol ex.books ≡ some b → Invariant.IsValid b
    pub registered :
        (symbol : Text) (id : ℕ) {b : OrderBook P}
        → lookup symbol ex.books ≡ some b
        → Has id (view b)
        → lookup id ex.order_symbol_map ≡ some symbol

  pub empty_exchange-IsValid : IsValid empty_exchange
  unfolding lookup
  empty_exchange-IsValid = record {
    books_valid = λ symbol e. absurd (none-ne-some _ e);
    registered = λ symbol id e h. absurd (none-ne-some _ e);
  }

  -- The books of the other symbols are the same.
  abbrev pub OthersKept : Text → Exchange P → Exchange P → Type 0
  OthersKept symbol ex ex' = (s : Text) → s ≢ symbol → lookup s ex'.books ≡ lookup s ex.books

  pub put_book-OthersKept :
      (symbol : Text) (b : OrderBook P) (ex : Exchange P)
      → OthersKept symbol ex (put_book symbol b ex)
  put_book-OthersKept symbol b ex s ne =
      lookup-insert symbol s b ex.books ∙ ground (arith, text_beq_iff symbol s)

  lookup-put :
      (symbol s : Text) (b : OrderBook P) (ex : Exchange P) {c : OrderBook P}
      → lookup s (put_book symbol b ex).books ≡ some c
      → ((s ≡ symbol) × (b ≡ c)) ⊎ ((s ≢ symbol) × (lookup s ex.books ≡ some c))
  lookup-put symbol s b ex {c} e =
      let f : (if text_beq symbol s then some b else lookup s ex.books) ≡ some c =
        sym (lookup-insert symbol s b ex.books) ∙ e in
      elim (Bool-cases (text_beq symbol s)) [
        | inl same ↦ inl (sym ((text_beq_iff symbol s).0 same), some-injective _ _ (rw same at f))
        | inr other ↦
            inr (λ p. false≢true (sym other ∙ (text_beq_iff symbol s).1 (sym p)), rw other at f)
      ]

  -- One book replaced, with an index that knows its orders and those of the others.
  pub put-IsValid :
      (symbol : Text) (b : OrderBook P) (m : Dict ℕ Text) (ex : Exchange P)
      → IsValid ex
      → Invariant.IsValid b
      → ((id : ℕ) → Has id (view b) → lookup id m ≡ some symbol)
      → ((s : Text) (id : ℕ)
          → s ≢ symbol
          → lookup id ex.order_symbol_map ≡ some s
          → lookup id m ≡ some s)
      → IsValid (record (put_book symbol b ex) { order_symbol_map = m })
  put-IsValid symbol b m ex v valid mine others = record {
    books_valid = λ s {b = c} e. elim (lookup-put symbol s b ex e) [
      | inl (p, q) ↦ subst Invariant.IsValid q valid
      | inr (ne, old) ↦ v.books_valid s old
    ];
    registered = λ s id {b = c} e h. elim (lookup-put symbol s b ex e) [
      | inl (p, q) ↦ rw p (mine id (subst (λ k. Has id (view k)) (sym q) h))
      | inr (ne, old) ↦ others s id ne (v.registered s id old h)
    ];
  }

  pub book_at-put :
      (symbol : Text) (b : OrderBook P) (ex : Exchange P)
      → book_at symbol (put_book symbol b ex).books ≡ b
  book_at-put symbol b ex =
      rw (lookup-insert symbol symbol b ex.books, (text_beq_iff symbol symbol).1 refl)

  pub book_at-IsValid :
      (symbol : Text) (ex : Exchange P) → IsValid ex → Invariant.IsValid (book_at symbol ex.books)
  book_at-IsValid symbol ex v = elim (Option-cases (lookup symbol ex.books)) [
    | inl e ↦ rw e empty_book-IsValid
    | inr (b, e) ↦ rw e (v.books_valid symbol e)
  ]

  pub book_at-registered :
      (symbol : Text) (id : ℕ) (ex : Exchange P)
      → IsValid ex
      → Has id (view (book_at symbol ex.books))
      → lookup id ex.order_symbol_map ≡ some symbol
  book_at-registered symbol id ex v h = elim (Option-cases (lookup symbol ex.books)) [
    | inl e ↦ absurd (nobody (rw e at h))
    | inr (b, e) ↦ v.registered symbol id e (rw e at h)
  ]
    where
      nobody : Has id (view {P = P} empty_book) → ⊥
      nobody (inl k) = k
      nobody (inr k) = k

  -- What `addOrder` leaves: a valid exchange, the order in its symbol's book, the other books alone.
  pub record Added (symbol : Text) (o : Order P) (ex ex' : Exchange P) : Type 0 where
    pub valid : IsValid ex'
    pub book : view (book_at symbol ex'.books) ≡ Spec.add o (view (book_at symbol ex.books))
    pub others : OthersKept symbol ex ex'
    pub known : lookup o.order_id ex'.order_symbol_map ≡ some symbol

  module _ (laws : IsOrdered P) where
    -- On a valid exchange, `Exchange::addOrder` of an id that is not registered puts the order in its
    -- place by price and time in the book of the symbol (a new book for a new symbol), registers the id
    -- under the symbol, leaves the books of the other symbols alone, and keeps the exchange valid.
    -- The order of the prices is `IsOrdered`.
    pub add_order-Added :
        (symbol : Text) (o : Order P) (ex : Exchange P)
        → IsValid ex
        → lookup o.order_id ex.order_symbol_map ≡ none
        → Added symbol o ex (add_order symbol o ex).1
    unfolding add_order
    add_order-Added symbol o ex v new =
        let b = book_at symbol ex.books in
        let absent : ¬ Has o.order_id (view b) =
          λ h. none-ne-some symbol (sym new ∙ book_at-registered symbol o.order_id ex v h) in
        let r =
          add_order-Refines laws o b (book_at-IsValid symbol ex v)
            (find-none o.order_id (view b) absent) in
        let at = λ (i : ℕ). lookup-insert o.order_id i symbol ex.order_symbol_map in
        record {
          valid =
              put-IsValid symbol (OrderBook.add_order o b).1 _ ex v r.1
                (λ i h. elim (Has-add i o (view b) (subst (Has i) (λ j. (r.0 j).1) h)) [
                  | inl same ↦ ground (arith, at i, eqb_iff o.order_id i)
                  | inr old ↦
                      ground
                        (arith, at i, eqb_iff o.order_id i, book_at-registered symbol i ex v old)
                ])
                (λ s i ne e. ground (arith, at i, eqb_iff o.order_id i));
          book = rw (book_at-put symbol (OrderBook.add_order o b).1 ex) (λ i. (r.0 i).1);
          others = put_book-OthersKept symbol (OrderBook.add_order o b).1 ex;
          known = at o.order_id ∙ rw ((eqb_iff o.order_id o.order_id).1 refl) refl;
        }

    -- What `cancelOrder` does, by the symbol that the exchange has for the id.
    abbrev pub CancelOk : ℕ → Option Text → Exchange P → List (Report P) × Exchange P → Type 0
    CancelOk id none ex r = r ≡ (cancel_unknown id ∷ [], ex)
    CancelOk id (some symbol) ex r =
        ((r.0, view (book_at symbol r.1.books)) ≡ Spec.cancel id (view (book_at symbol ex.books)))
        × OthersKept symbol ex r.1
        × ((i : ℕ)
            → lookup i r.1.order_symbol_map
              ≡ (if eqb id i then none else lookup i ex.order_symbol_map))

    cancelled_put :
        (id : ℕ) (symbol : Text) (ex : Exchange P)
        → IsValid ex
        → lookup id ex.order_symbol_map ≡ some symbol
        → (r : List (Report P) × OrderBook P)
        → Refines (Spec.cancel id (view (book_at symbol ex.books))) r
        → let ex' = record (put_book symbol r.1 ex) {
          order_symbol_map = erase id ex.order_symbol_map;
        } in
          CancelOk id (some symbol) ex (r.0, ex') × IsValid ex'
    cancelled_put id symbol ex v e r h =
        let at = λ (i : ℕ). lookup-erase id i ex.order_symbol_map in
        let s = view (book_at symbol ex.books) in
        (
          (rw (book_at-put symbol r.1 ex) h.0, put_book-OthersKept symbol r.1 ex, at),
          put-IsValid symbol r.1 _ ex v h.1
              (λ i k.
                let (old, ne) = Has-cancel i id s (subst (Has i) (λ j. (h.0 j).1) k) in
                ground (arith, at i, eqb_iff id i, book_at-registered symbol i ex v old))
              (λ t i ne f. ground (arith, at i, eqb_iff id i)),
        )

    -- On a valid exchange, `Exchange::cancelOrder` returns: it cancels the id in the book of the symbol
    -- that it is registered under, forgets the id and no other, leaves the other books alone, and keeps
    -- the exchange valid; for an id that is not registered it reports so and changes nothing.
    -- The order of the prices is `IsOrdered`.
    pub cancel_order-CancelOk :
        (id : ℕ) (ex : Exchange P)
        → IsValid ex
        → Returns
            (λ r. CancelOk id (lookup id ex.order_symbol_map) ex r × IsValid r.1)
            (cancel_order id ex)
    unfolding cancel_order
    cancel_order-CancelOk id ex v = elim (Option-cases (lookup id ex.order_symbol_map)) [
      | inl e ↦ rw (e, cancel_order) (refl, v)
      | inr (symbol, e) ↦
          rw (e, cancel_order)
            (Returns->>= (Refines (Spec.cancel id (view (book_at symbol ex.books)))) _ _ _
              (cancel_order-Refines laws id (book_at symbol ex.books) (book_at-IsValid symbol ex v))
              (cancelled_put id symbol ex v e))
    ]
