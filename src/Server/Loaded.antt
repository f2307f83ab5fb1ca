-- ===== src/Server/Loaded.antt =====
-- A command of the matching thread adds at most one order to each side of each book.
use order_matching_engine.Base.{ℕ, suc, ◌≤◌, ◌≡◌, refl, true, List, nat_key, text_key}
use order_matching_engine.Base.Exec.{Returns, Returns->>=, Returns-map}
use order_matching_engine.Base.Dict.{lookup}
use order_matching_engine.Order.{
  Price, IsOrdered, CommandType, new, cancel, modify, stats, book, Command,
}
use order_matching_engine.Report.{Report}
use order_matching_engine.OrderBook.Lots.{IsLot}
use order_matching_engine.OrderBook.Load.{IsUpTo}
use order_matching_engine.Exchange.{
  Exchange, book_at, add_order, cancel_order, match_orders, modify_order,
}
use order_matching_engine.Exchange.Routing.{cancel_order-CancelOk}
use order_matching_engine.Exchange.Changes.{modify_order-ModifyOk}
use order_matching_engine.Exchange.Live.{BookLots-resting}
use order_matching_engine.Exchange.Loads.{
  IsLoaded, IsLoaded-mono, add_order-IsLoaded, match_orders-IsLoaded, CancelOk-IsLoaded,
  ModifyOk-IsLoaded,
}
use order_matching_engine.Server.Engine.{order_of, dispatch_new, dispatch_modify, dispatch}
use order_matching_engine.Server.Ids.{is_new}
use order_matching_engine.Server.Run.{IsReady, unregistered, add_order-IsReady, ModifyOk-IsReady}
use order_matching_engine.Server.Pipeline.{OfQuantity, NeedsLot}

module _ {P : Type 0} ⦃d : Price P⦄ (laws : IsOrdered P) (n top : ℕ) where
  dispatch_new-IsLoaded :
      (next : ℕ) (cmd : Command P) (ex : Exchange P)
      → IsReady next ex
      → IsLoaded n top ex
      → next ≤ cmd.order_id
      → IsLot cmd.quantity
      → IsUpTo top cmd.quantity
      → Returns (λ r. IsLoaded (suc n) top r.1) (dispatch_new cmd ex)
  unfolding dispatch_new
  dispatch_new-IsLoaded next cmd ex h k p q u =
      let a = (add_order cmd.symbol (order_of cmd) ex).1 in
      let h' = add_order-IsReady laws next cmd.symbol (order_of cmd) ex h p q in
      Returns->>= (λ (r : List (Report P) × Exchange P). IsLoaded (suc n) top r.1) _
        (match_orders cmd.symbol a) _
        (match_orders-IsLoaded laws (suc n) top cmd.symbol a h'.valid
          (BookLots-resting (book_at cmd.symbol a.books) (h'.live cmd.symbol))
          (add_order-IsLoaded laws n top cmd.symbol (order_of cmd) ex h.valid
            (unregistered laws next cmd.order_id ex h p) u k))
        (λ r j. j)

  dispatch_modify-IsLoaded :
      (next : ℕ) (cmd : Command P) (ex : Exchange P)
      → IsReady next ex
      → IsLoaded n top ex
      → IsLot cmd.quantity
      → IsUpTo top cmd.quantity
      → Returns (λ r. IsLoaded (suc n) top r.1) (dispatch_modify cmd ex)
  unfolding dispatch_modify
  dispatch_modify-IsLoaded next cmd ex h k q u =
      let o = lookup cmd.order_id ex.order_symbol_map in
      Returns->>=
        (λ (r : List (Report P) × Exchange P). IsReady next r.1 × IsLoaded (suc n) top r.1) _
        (modify_order cmd.order_id cmd.symbol cmd.quantity cmd.price cmd.timestamp ex) _
        (Returns-map _ _
          (modify_order cmd.order_id cmd.symbol cmd.quantity cmd.price cmd.timestamp ex)
          (modify_order-ModifyOk laws cmd.order_id cmd.symbol cmd.quantity cmd.price cmd.timestamp
            ex h.valid)
          (λ r m. (
            ModifyOk-IsReady laws next cmd.order_id cmd.symbol cmd.quantity cmd.price cmd.timestamp
                o ex q h r m,
            ModifyOk-IsLoaded laws n top cmd.order_id cmd.symbol cmd.quantity cmd.price
                cmd.timestamp o ex u k r m,
          )))
        (λ m j.
          Returns->>= (λ (r : List (Report P) × Exchange P). IsLoaded (suc n) top r.1) _
            (match_orders cmd.symbol m.1) _
            (match_orders-IsLoaded laws (suc n) top cmd.symbol m.1 j.0.valid
              (BookLots-resting (book_at cmd.symbol m.1.books) (j.0.live cmd.symbol)) j.1)
            (λ r i. i))

  pub dispatch_type-IsLoaded :
      (type : CommandType) (next : ℕ) (cmd : Command P) (ex : Exchange P)
      → IsReady next ex
      → IsLoaded n top ex
      → (is_new type ≡ true → next ≤ cmd.order_id)
      → NeedsLot type cmd
      → OfQuantity (IsUpTo top) type cmd
      → Returns (λ r. IsLoaded (suc n) top r.1) (dispatch (record cmd { type = type }) ex)
  unfolding dispatch
  dispatch_type-IsLoaded new next cmd ex h k p l u =
      dispatch_new-IsLoaded next (record cmd { type = new }) ex h k (p refl) l u
  dispatch_type-IsLoaded cancel next cmd ex h k p l u =
      Returns-map _ _ (cancel_order cmd.order_id ex)
        (cancel_order-CancelOk laws cmd.order_id ex h.valid)
        (CancelOk-IsLoaded laws n top cmd.order_id (lookup cmd.order_id ex.order_symbol_map) ex k)
  dispatch_type-IsLoaded modify next cmd ex h k p l u =
      dispatch_modify-IsLoaded next (record cmd { type = modify }) ex h k l u
  dispatch_type-IsLoaded stats next cmd ex h k p l u = IsLoaded-mono n top ex k
  dispatch_type-IsLoaded book next cmd ex h k p l u = IsLoaded-mono n top ex k
