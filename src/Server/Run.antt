-- ===== src/Server/Run.antt =====
-- The matching thread over a whole run of commands: the ids of the network thread and live quantities
-- keep the exchange valid, and no call runs into undefined behaviour.
use order_matching_engine.Base.{
  ℕ, suc, ◌<◌, ◌≤◌, ◌≡◌, refl, ◌∙◌, sym, subst, inl, inr, Option, none, some, List, arith, eqb,
  eqb_iff, if◌then◌else◌, Bool-cases, Option-cases, Text, nat_key, text_key,
}
use order_matching_engine.Base.Exec.{Returns, Returns->>=, Returns-map}
use order_matching_engine.Base.Int.{ℤ}
use order_matching_engine.Base.Dict.{lookup, insert, lookup-insert}
use order_matching_engine.Order.{Price, IsOrdered, Order, Command}
use order_matching_engine.Report.{Report}
use order_matching_engine.OrderBook.{OrderBook}
use order_matching_engine.OrderBook.Lots.{IsLot}
use order_matching_engine.OrderBook.Conserve.{resting-OrderLots}
use order_matching_engine.OrderBook.Spec.{view}
use order_matching_engine.Exchange.{Exchange, book_at, add_order, match_orders}
use order_matching_engine.Exchange.Routing.{IsValid, add_order-Added, CancelOk}
use order_matching_engine.Exchange.Changes.{
  ModifyOk, modify_order-ModifyOk, MatchOk, match_orders-MatchOk,
}
use order_matching_engine.OrderBook.Quantities.{EachOf-cancel, EachOf-add, EachOf-modify}
use order_matching_engine.Exchange.Live.{BookLots, BookLots-resting, IsLive, OthersKept-every}
use order_matching_engine.Server.Engine.{order_of, dispatch_new, dispatch_modify}

module _ {P : Type 0} ⦃d : Price P⦄ where
  -- Between two commands: `next` is above every id that has been registered.
  pub record IsReady (next : ℕ) (ex : Exchange P) : Type 0 where
    pub valid : IsValid ex
    pub live : IsLive ex
    pub below : (id : ℕ) (s : Text) → lookup id ex.order_symbol_map ≡ some s → id < next

  module _ (laws : IsOrdered P) where
    pub unregistered :
        (next id : ℕ) (ex : Exchange P)
        → IsReady next ex
        → next ≤ id
        → lookup id ex.order_symbol_map ≡ none
    unregistered next id ex h p = elim (Option-cases (lookup id ex.order_symbol_map)) [
      | inl e ↦ e
      | inr (s, e) ↦ absurd (omega (arith, h.below id s e))
    ]

    add_order-map :
        (symbol : Text) (o : Order P) (ex : Exchange P)
        → (add_order symbol o ex).1.order_symbol_map ≡ insert o.order_id symbol ex.order_symbol_map
    unfolding add_order
    add_order-map symbol o ex = refl

    pub add_order-IsReady :
        (next : ℕ) (symbol : Text) (o : Order P) (ex : Exchange P)
        → IsReady next ex
        → next ≤ o.order_id
        → IsLot o.quantity
        → IsReady (suc o.order_id) (add_order symbol o ex).1
    add_order-IsReady next symbol o ex h p q =
        let a = add_order-Added laws symbol o ex h.valid (unregistered next o.order_id ex h p) in
        record {
          valid = a.valid;
          live = OthersKept-every BookLots symbol ex (add_order symbol o ex).1 a.others h.live (
              subst BookLots (sym a.book)
                (EachOf-add IsLot o (view (book_at symbol ex.books)) q (h.live symbol)));
          below = λ id s e.
              let at = lookup-insert o.order_id id symbol ex.order_symbol_map in
              let f : (if eqb o.order_id id then some symbol else lookup id ex.order_symbol_map)
                  ≡ some s =
                sym at ∙ rw (← add_order-map symbol o ex) e in
              elim (Bool-cases (eqb o.order_id id)) [
                | inl same ↦ omega (arith, (eqb_iff o.order_id id).0 same)
                | inr other ↦ omega (arith, h.below id s (rw other at f))
              ];
        }

    MatchOk-IsReady :
        (next : ℕ) (symbol : Text) (o : Option (OrderBook P)) (ex : Exchange P)
        → IsReady next ex
        → (r : List (Report P) × Exchange P) → MatchOk laws symbol o ex r × IsValid r.1
        → IsReady next r.1
    MatchOk-IsReady next symbol none ex h r m = subst (λ k. IsReady next k.1) (sym m.0) h
    MatchOk-IsReady next symbol (some b) ex h r m = record {
      valid = m.1;
      live =
          OthersKept-every BookLots symbol ex r.1 m.0.2 h.live
            (resting-OrderLots laws (book_at symbol r.1.books) m.0.1);
      below = λ id s e. h.below id s (rw (← m.0.3) e);
    }

    pub match_orders-IsReady :
        (next : ℕ) (symbol : Text) (ex : Exchange P)
        → IsReady next ex
        → Returns (λ r. IsReady next r.1) (match_orders symbol ex)
    match_orders-IsReady next symbol ex h =
        Returns-map _ _ (match_orders symbol ex)
          (match_orders-MatchOk laws symbol ex h.valid
            (BookLots-resting (book_at symbol ex.books) (h.live symbol)))
          (MatchOk-IsReady next symbol (lookup symbol ex.books) ex h)

    pub CancelOk-IsReady :
        (next id : ℕ) (o : Option Text) (ex : Exchange P)
        → IsReady next ex
        → (r : List (Report P) × Exchange P) → CancelOk laws id o ex r × IsValid r.1
        → IsReady next r.1
    CancelOk-IsReady next id none ex h r m = subst (λ k. IsReady next k.1) (sym m.0) h
    CancelOk-IsReady next id (some symbol) ex h r m = record {
      valid = m.1;
      live = OthersKept-every BookLots symbol ex r.1 m.0.1 h.live (
          subst BookLots (λ i. (sym m.0.0 i).1)
            (EachOf-cancel IsLot id (view (book_at symbol ex.books)) (h.live symbol)));
      below = λ i s e. ground (arith, m.0.2 i, h.below i s);
    }

    pub ModifyOk-IsReady :
        (next id : ℕ) (symbol : Text) (q : ℤ) (p : P) (timestamp : ℤ) (o : Option Text)
        (ex : Exchange P)
        → IsLot q
        → IsReady next ex
        → (r : List (Report P) × Exchange P) → ModifyOk id symbol q p timestamp o ex r × IsValid r.1
        → IsReady next r.1
    ModifyOk-IsReady next id symbol q p timestamp none ex l h r m =
        subst (λ k. IsReady next k.1) (sym m.0) h
    ModifyOk-IsReady next id symbol q p timestamp (some actual) ex l h r (inr other, v) =
        subst (λ k. IsReady next k.1) (sym other.1) h
    ModifyOk-IsReady next id symbol q p timestamp (some actual) ex l h r (inl (same, changed), v) =
        record {
          valid = v;
          live = OthersKept-every BookLots symbol ex r.1 changed.1 h.live (
              subst BookLots (λ i. (sym changed.0 i).1)
                (EachOf-modify IsLot id q p timestamp (view (book_at symbol ex.books)) l
                  (h.live symbol)));
          below = λ i s e. h.below i s (rw (← changed.2) e);
        }

    pub dispatch_new-IsReady :
        (next : ℕ) (cmd : Command P) (ex : Exchange P)
        → IsReady next ex
        → next ≤ cmd.order_id
        → IsLot cmd.quantity
        → Returns (λ r. IsReady (suc cmd.order_id) r.1) (dispatch_new cmd ex)
    unfolding dispatch_new
    dispatch_new-IsReady next cmd ex h p q =
        let a = add_order cmd.symbol (order_of cmd) ex in
        Returns->>= (λ (r : List (Report P) × Exchange P). IsReady (suc cmd.order_id) r.1) _
          (match_orders cmd.symbol a.1) _
          (match_orders-IsReady (suc cmd.order_id) cmd.symbol a.1
            (add_order-IsReady next cmd.symbol (order_of cmd) ex h p q))
          (λ r k. k)

    pub dispatch_modify-IsReady :
        (next : ℕ) (cmd : Command P) (ex : Exchange P)
        → IsReady next ex
        → IsLot cmd.quantity
        → Returns (λ r. IsReady next r.1) (dispatch_modify cmd ex)
    unfolding dispatch_modify
    dispatch_modify-IsReady next cmd ex h q =
        Returns->>= (λ (r : List (Report P) × Exchange P). IsReady next r.1) _ _ _
          (Returns-map _ _ _
            (modify_order-ModifyOk laws cmd.order_id cmd.symbol cmd.quantity cmd.price cmd.timestamp
              ex h.valid)
            (ModifyOk-IsReady next cmd.order_id cmd.symbol cmd.quantity cmd.price cmd.timestamp
              (lookup cmd.order_id ex.order_symbol_map) ex q h))
          (λ m k.
            Returns->>= (λ (r : List (Report P) × Exchange P). IsReady next r.1) _
              (match_orders cmd.symbol m.1) _ (match_orders-IsReady next cmd.symbol m.1 k)
              (λ r j. j))
