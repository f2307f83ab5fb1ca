-- ===== src/Server/Refines.antt =====
-- A run of the matching thread against the market.
use order_matching_engine.Base.{
  ℕ, suc, ◌+◌, ◌^◌, ◌<◌, ◌≤◌, ◌≡◌, refl, ap₂, true, Option, List, [], ◌∷◌, ◌++◌, Text, All, length,
}
use order_matching_engine.Base.Exec.{Returns, Returns->>=, Returns-map, Returns-both}
use order_matching_engine.Base.{nat_key}
use order_matching_engine.Base.Dict.{lookup}
use order_matching_engine.Order.{
  Price, IsOrdered, CommandType, new, cancel, modify, stats, book, Command,
}
use order_matching_engine.Report.{Report}
use order_matching_engine.OrderBook.Lots.{IsLot}
use order_matching_engine.Exchange.{Exchange, empty_exchange, add_order, match_orders, modify_order}
use order_matching_engine.Exchange.Changes.{modify_order-ModifyOk}
use order_matching_engine.Exchange.Market.{
  Market, empty_market, place_new, modify_known, then_settle, order_in, carry_out, carry_out_all,
}
use order_matching_engine.Exchange.Agrees.{Agrees, Does}
use order_matching_engine.Exchange.Operations.{
  empty_exchange-Agrees, add_order-Does, match_orders-Does, cancel_order-Does, modify_order-Does,
}
use order_matching_engine.Server.Parser.{Clocks, process_lines}
use order_matching_engine.Server.Ids.{is_new, Ascending, process_lines-Ascending}
use order_matching_engine.Server.Engine.{
  order_of, dispatch_new, dispatch_modify, dispatch, dispatch_all,
}
use order_matching_engine.Server.Run.{IsReady, unregistered, add_order-IsReady, ModifyOk-IsReady}
use order_matching_engine.Server.Pipeline.{
  NeedsLot, IsLiveCommand, next_id, later_ids, dispatch_type-IsReady, empty_exchange-IsReady,
}

module _ {P : Type 0} ⦃d : Price P⦄ (laws : IsOrdered P) where
  -- The trades of a symbol after an operation.
  settle-Does :
      (next : ℕ) (symbol : Text) (reports : List (Report P)) (ex : Exchange P)
      (a : List (Report P) × Market P)
      → IsReady next ex
      → Does a (reports, ex)
      → Returns
          (λ (r : List (Report P) × Exchange P). Does (then_settle symbol a) (reports ++ r.0, r.1))
          (match_orders symbol ex)
  settle-Does next symbol reports ex a h e =
      Returns-map _ _ (match_orders symbol ex)
        (match_orders-Does laws symbol ex a.1 h.valid h.live e.1)
        (λ r k. (ap₂ (λ x y. x ++ y) e.0 k.0, k.1))

  dispatch_new-Does :
      (next : ℕ) (cmd : Command P) (ex : Exchange P) (m : Market P)
      → IsReady next ex
      → next ≤ cmd.order_id
      → IsLot cmd.quantity
      → Agrees ex m
      → Returns
          (Does (then_settle cmd.symbol (place_new cmd.symbol (order_in cmd) m)))
          (dispatch_new cmd ex)
  unfolding dispatch_new
  dispatch_new-Does next cmd ex m h p q e =
      let a = add_order cmd.symbol (order_of cmd) ex in
      Returns->>= _ (Does (then_settle cmd.symbol (place_new cmd.symbol (order_in cmd) m)))
        (match_orders cmd.symbol a.1) _
        (settle-Does (suc cmd.order_id) cmd.symbol a.0 a.1 (place_new cmd.symbol (order_in cmd) m)
          (add_order-IsReady laws next cmd.symbol (order_of cmd) ex h p q)
          (add_order-Does laws cmd.symbol (order_of cmd) ex m h.valid
            (unregistered laws next cmd.order_id ex h p) e))
        (λ r j. j)

  dispatch_modify-Does :
      (next : ℕ) (cmd : Command P) (ex : Exchange P) (m : Market P)
      → IsReady next ex
      → IsLot cmd.quantity
      → Agrees ex m
      → Returns
          (Does (
            then_settle cmd.symbol (
              modify_known cmd.order_id cmd.symbol cmd.quantity cmd.price cmd.timestamp
                (m.symbol_of cmd.order_id)
                m)))
          (dispatch_modify cmd ex)
  unfolding dispatch_modify
  dispatch_modify-Does next cmd ex m h q e =
      let change = modify_order cmd.order_id cmd.symbol cmd.quantity cmd.price cmd.timestamp ex in
      let out =
        modify_known cmd.order_id cmd.symbol cmd.quantity cmd.price cmd.timestamp
          (m.symbol_of cmd.order_id) m in
      Returns->>= (λ (r : List (Report P) × Exchange P). Does out r × IsReady next r.1)
        (Does (then_settle cmd.symbol out)) change _
        (Returns-both (Does out) _ change
          (modify_order-Does laws cmd.order_id cmd.symbol cmd.quantity cmd.price cmd.timestamp ex m
            h.valid e)
          (Returns-map _ _ change
            (modify_order-ModifyOk laws cmd.order_id cmd.symbol cmd.quantity cmd.price cmd.timestamp
              ex h.valid)
            (ModifyOk-IsReady laws next cmd.order_id cmd.symbol cmd.quantity cmd.price cmd.timestamp
              (lookup cmd.order_id ex.order_symbol_map) ex q h)))
        (λ r j.
          Returns->>= _ (Does (then_settle cmd.symbol out)) (match_orders cmd.symbol r.1) _
            (settle-Does next cmd.symbol r.0 r.1 out j.1 j.0) (λ t k. k))

  pub dispatch_type-Does :
      (type : CommandType) (next : ℕ) (cmd : Command P) (ex : Exchange P) (m : Market P)
      → IsReady next ex
      → (is_new type ≡ true → next ≤ cmd.order_id)
      → NeedsLot type cmd
      → Agrees ex m
      → Returns
          (Does (carry_out (record cmd { type = type }) m))
          (dispatch (record cmd { type = type }) ex)
  unfolding dispatch
  dispatch_type-Does new next cmd ex m h p l e =
      dispatch_new-Does next (record cmd { type = new }) ex m h (p refl) l e
  dispatch_type-Does cancel next cmd ex m h p l e =
      cancel_order-Does laws cmd.order_id ex m h.valid e
  dispatch_type-Does modify next cmd ex m h p l e =
      dispatch_modify-Does next (record cmd { type = modify }) ex m h l e
  dispatch_type-Does stats next cmd ex m h p l e = (refl, e)
  dispatch_type-Does book next cmd ex m h p l e = (refl, e)

  dispatch_all-Does :
      (next : ℕ) (cmds : List (Command P)) (ex : Exchange P) (m : Market P)
      → IsReady next ex
      → Ascending next cmds
      → All IsLiveCommand cmds
      → Agrees ex m
      → Returns (Does (carry_out_all cmds m)) (dispatch_all cmds ex)
  unfolding dispatch_all
  dispatch_all-Does next [] ex m h a l e = (refl, e)
  dispatch_all-Does next (cmd ∷ cmds) ex m h a l e =
      let after = next_id cmd.type next cmd in
      let out = carry_out cmd m in
      Returns->>= (λ (r : List (Report P) × Exchange P). Does out r × IsReady after r.1) _
        (dispatch cmd ex) _
        (Returns-both (Does out) _ (dispatch cmd ex)
          (dispatch_type-Does cmd.type next cmd ex m h (λ f. (rw f at a).0) l.0 e)
          (dispatch_type-IsReady laws cmd.type next cmd ex h (λ f. (rw f at a).0) l.0))
        (λ r j.
          Returns->>= (Does (carry_out_all cmds out.1)) _ (dispatch_all cmds r.1) _
            (dispatch_all-Does after cmds r.1 out.1 j.1
              (later_ids laws (is_new cmd.type) next cmd.order_id cmds a) l.1 j.0.1)
            (λ s i. (ap₂ (λ x y. x ++ y) j.0.0 i.0, i.1)))

  -- The exchange as a whole does what the market says. For any lines of input that ask for live quantities
  -- only, as long as the id counter does not wrap, the matching thread's calls on the exchange, from the
  -- empty one and in the order of the queue, print exactly the reports of the market, in order: additions,
  -- trades, cancellations, modifications and rejections. They leave the market's orders in every book, in
  -- the same priority and with the same quantities, and every id registered under the same symbol.
  -- The order of the prices is `IsOrdered`.
  pub process_lines-Does :
      (zero_price : P) (read_price : Text → Option (P × Text)) (lines : List (Text × Clocks))
      (next : ℕ)
      → next + length lines < 2 ^ 64
      → All IsLiveCommand (process_lines zero_price read_price lines next)
      → Returns
          (Does (carry_out_all (process_lines zero_price read_price lines next) empty_market))
          (dispatch_all (process_lines zero_price read_price lines next) empty_exchange)
  process_lines-Does zero_price read_price lines next b l =
      dispatch_all-Does next (process_lines zero_price read_price lines next) empty_exchange
        empty_market (empty_exchange-IsReady laws next)
        (process_lines-Ascending zero_price read_price lines next b) l empty_exchange-Agrees
