-- ===== src/Exchange/Live.antt =====
-- Live orders: every resting quantity is a positive `int`. The operations keep them so.
use order_matching_engine.Base.{
  ◌∙◌, sym, subst, ◌≢◌, inl, inr, List, [], ◌∷◌, Bool-cases, Text, text_beq, text_beq_iff,
  All-append,
}
use mathlib.Core.Bool.{false≢true}
use order_matching_engine.Base.Dict.{lookup}
use order_matching_engine.Order.{Price}
use order_matching_engine.Levels.{Node, nodes}
use order_matching_engine.Levels.Priority.{orders}
use order_matching_engine.OrderBook.{OrderBook, resting}
use order_matching_engine.OrderBook.Lots.{IsLot, Lots}
use order_matching_engine.OrderBook.Trades.{OrderLots}
use order_matching_engine.OrderBook.Quantities.{EachOf}
use order_matching_engine.OrderBook.Spec.{PriorityBook, view}
use order_matching_engine.Exchange.{Exchange, empty_exchange, book_or_empty, book_at}
use order_matching_engine.Exchange.Routing.{OthersKept}

module _ {P : Type 0} where
  abbrev pub BookLots : PriorityBook P → Type 0
  BookLots = EachOf IsLot

  orders-Lots_back : (ns : List (Node P)) → OrderLots (orders ns) → Lots ns
  orders-Lots_back [] h = tt
  orders-Lots_back (n ∷ ns) h = (h.0, orders-Lots_back ns h.1)

  pub BookLots-resting : (b : OrderBook P) → BookLots (view b) → Lots (resting b)
  BookLots-resting b h =
      All-append _ (nodes b.bids) (nodes b.asks) (orders-Lots_back (nodes b.bids) h.0)
        (orders-Lots_back (nodes b.asks) h.1)

  -- Every order of every book is live.
  abbrev pub IsLive : Exchange P → Type 0
  IsLive ex = (symbol : Text) → BookLots (view (book_at symbol ex.books))

module _ {P : Type 0} ⦃d : Price P⦄ where
  -- One book changes, so what it and the others satisfy every book satisfies.
  pub OthersKept-every :
      (R : PriorityBook P → Type 0) (symbol : Text) (ex ex' : Exchange P)
      → OthersKept symbol ex ex'
      → ((s : Text) → R (view (book_at s ex.books)))
      → R (view (book_at symbol ex'.books))
      → (s : Text) → R (view (book_at s ex'.books))
  OthersKept-every R symbol ex ex' kept old h s = elim (Bool-cases (text_beq s symbol)) [
    | inl same ↦
        subst (λ t. R (view (book_at t ex'.books))) (sym ((text_beq_iff s symbol).0 same)) h
    | inr other ↦
        let ne : s ≢ symbol = λ e. false≢true (sym other ∙ (text_beq_iff s symbol).1 e) in
        subst (λ o. R (view (book_or_empty o))) (sym (kept s ne)) (old s)
  ]

pub empty_exchange-IsLive : (P : Type 0) → IsLive {P = P} empty_exchange
unfolding lookup
empty_exchange-IsLive P symbol = (tt, tt)
