-- ===== src/Server/Settled.antt =====
-- A command of the matching thread leaves no book crossed.
use order_matching_engine.Base.{ℕ, suc, ◌≤◌, List, Text, nat_key, text_key}
use order_matching_engine.Base.Exec.{Returns, Returns->>=, Returns-map}
use order_matching_engine.Base.Dict.{lookup}
use order_matching_engine.Order.{Price, IsOrdered, Command}
use order_matching_engine.Report.{Report}
use order_matching_engine.OrderBook.Lots.{IsLot}
use order_matching_engine.Exchange.{Exchange, book_at, add_order, match_orders, modify_order}
use order_matching_engine.Exchange.Routing.{add_order-Added}
use order_matching_engine.Exchange.Changes.{modify_order-ModifyOk}
use order_matching_engine.Exchange.Live.{BookLots-resting}
use order_matching_engine.Exchange.Quiet.{
  IsQuiet, QuietBut, OthersKept-QuietBut, match_orders-IsQuiet, ModifyOk-QuietBut,
}
use order_matching_engine.Server.Engine.{order_of, dispatch_new, dispatch_modify}
use order_matching_engine.Server.Run.{IsReady, unregistered, add_order-IsReady, ModifyOk-IsReady}

module _ {P : Type 0} ⦃d : Price P⦄ (laws : IsOrdered P) where
  match_ready-IsQuiet :
      (next : ℕ) (symbol : Text) (ex : Exchange P)
      → IsReady next ex
      → QuietBut symbol ex
      → Returns (λ r. IsQuiet r.1) (match_orders symbol ex)
  match_ready-IsQuiet next symbol ex h but =
      match_orders-IsQuiet laws symbol ex h.valid
        (BookLots-resting (book_at symbol ex.books) (h.live symbol)) but

  pub dispatch_new-IsQuiet :
      (next : ℕ) (cmd : Command P) (ex : Exchange P)
      → IsReady next ex
      → IsQuiet ex
      → next ≤ cmd.order_id
      → IsLot cmd.quantity
      → Returns (λ r. IsQuiet r.1) (dispatch_new cmd ex)
  unfolding dispatch_new
  dispatch_new-IsQuiet next cmd ex h k p q =
      let a = (add_order cmd.symbol (order_of cmd) ex).1 in
      let added =
        add_order-Added laws cmd.symbol (order_of cmd) ex h.valid
          (unregistered laws next cmd.order_id ex h p) in
      Returns->>= (λ (r : List (Report P) × Exchange P). IsQuiet r.1) _ (match_orders cmd.symbol a)
        _
        (match_ready-IsQuiet (suc cmd.order_id) cmd.symbol a
          (add_order-IsReady laws next cmd.symbol (order_of cmd) ex h p q)
          (OthersKept-QuietBut cmd.symbol ex a added.others (λ s ne. k s)))
        (λ r j. j)

  pub dispatch_modify-IsQuiet :
      (next : ℕ) (cmd : Command P) (ex : Exchange P)
      → IsReady next ex
      → IsQuiet ex
      → IsLot cmd.quantity
      → Returns (λ r. IsQuiet r.1) (dispatch_modify cmd ex)
  unfolding dispatch_modify
  dispatch_modify-IsQuiet next cmd ex h k q =
      let o = lookup cmd.order_id ex.order_symbol_map in
      Returns->>= (λ (r : List (Report P) × Exchange P). IsReady next r.1 × QuietBut cmd.symbol r.1)
        _ (modify_order cmd.order_id cmd.symbol cmd.quantity cmd.price cmd.timestamp ex) _
        (Returns-map _ _
          (modify_order cmd.order_id cmd.symbol cmd.quantity cmd.price cmd.timestamp ex)
          (modify_order-ModifyOk laws cmd.order_id cmd.symbol cmd.quantity cmd.price cmd.timestamp
            ex h.valid)
          (λ r m. (
            ModifyOk-IsReady laws next cmd.order_id cmd.symbol cmd.quantity cmd.price cmd.timestamp
                o ex q h r m,
            ModifyOk-QuietBut laws cmd.order_id cmd.symbol cmd.quantity cmd.price cmd.timestamp o ex
                k r m,
          )))
        (λ m j.
          Returns->>= (λ (r : List (Report P) × Exchange P). IsQuiet r.1) _
            (match_orders cmd.symbol m.1) _ (match_ready-IsQuiet next cmd.symbol m.1 j.0 j.1)
            (λ r i. i))
