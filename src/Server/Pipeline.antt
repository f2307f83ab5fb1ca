-- ===== src/Server/Pipeline.antt =====
-- From the lines of the clients to the exchange: the whole run is free of undefined behaviour.
use order_matching_engine.Base.{
  ℕ, suc, ◌+◌, ◌^◌, ◌<◌, ◌≤◌, ◌≡◌, refl, Bool, true, false, Option, List, [], ◌∷◌, if◌then◌else◌,
  Text, All, length, nat_key,
}
use mathlib.Core.Option.{none-ne-some}
use order_matching_engine.Base.Exec.{Returns, Returns-both, Returns->>=, Returns-map}
use order_matching_engine.Base.Int.{ℤ}
use order_matching_engine.Base.Dict.{lookup}
use order_matching_engine.Order.{
  Price, IsOrdered, CommandType, new, cancel, modify, stats, book, Command,
}
use order_matching_engine.Report.{Report}
use order_matching_engine.OrderBook.Lots.{IsLot}
use order_matching_engine.Exchange.{Exchange, empty_exchange, cancel_order}
use order_matching_engine.Exchange.Routing.{IsValid, empty_exchange-IsValid, cancel_order-CancelOk}
use order_matching_engine.Exchange.Live.{IsLive, empty_exchange-IsLive}
use order_matching_engine.Exchange.Quiet.{IsQuiet, empty_exchange-IsQuiet, CancelOk-IsQuiet}
use order_matching_engine.Server.Settled.{dispatch_new-IsQuiet, dispatch_modify-IsQuiet}
use order_matching_engine.Server.Parser.{Clocks, process_lines}
use order_matching_engine.Server.Ids.{is_new, Ascending, process_lines-Ascending}
use order_matching_engine.Server.Engine.{dispatch, dispatch_all}
use order_matching_engine.Server.Run.{
  IsReady, CancelOk-IsReady, dispatch_new-IsReady, dispatch_modify-IsReady,
}

-- What must hold of the quantity of a new order and of a modification.
abbrev pub OfQuantity : {P : Type 0} → (ℤ → Type 0) → CommandType → Command P → Type 0
OfQuantity Q new cmd = Q cmd.quantity
OfQuantity Q modify cmd = Q cmd.quantity
OfQuantity Q _ cmd = Unit

abbrev pub NeedsLot : {P : Type 0} → CommandType → Command P → Type 0
NeedsLot = OfQuantity IsLot

abbrev pub IsLiveCommand : {P : Type 0} → Command P → Type 0
IsLiveCommand cmd = NeedsLot cmd.type cmd

-- The least id that a new order may have afterwards.
abbrev pub next_id : {P : Type 0} → CommandType → ℕ → Command P → ℕ
next_id type next cmd = if is_new type then suc cmd.order_id else next

module _ {P : Type 0} ⦃d : Price P⦄ (laws : IsOrdered P) where
  pub dispatch_type-IsReady :
      (type : CommandType) (next : ℕ) (cmd : Command P) (ex : Exchange P)
      → IsReady next ex
      → (is_new type ≡ true → next ≤ cmd.order_id)
      → NeedsLot type cmd
      → Returns
          (λ r. IsReady (next_id type next cmd) r.1)
          (dispatch (record cmd { type = type }) ex)
  unfolding dispatch
  dispatch_type-IsReady new next cmd ex h p l =
      dispatch_new-IsReady laws next (record cmd { type = new }) ex h (p refl) l
  dispatch_type-IsReady cancel next cmd ex h p l =
      Returns-map _ _ (cancel_order cmd.order_id ex)
        (cancel_order-CancelOk laws cmd.order_id ex h.valid)
        (CancelOk-IsReady laws next cmd.order_id (lookup cmd.order_id ex.order_symbol_map) ex h)
  dispatch_type-IsReady modify next cmd ex h p l =
      dispatch_modify-IsReady laws next (record cmd { type = modify }) ex h l
  dispatch_type-IsReady stats next cmd ex h p l = h
  dispatch_type-IsReady book next cmd ex h p l = h

  pub dispatch_type-IsQuiet :
      (type : CommandType) (next : ℕ) (cmd : Command P) (ex : Exchange P)
      → IsReady next ex
      → IsQuiet ex
      → (is_new type ≡ true → next ≤ cmd.order_id)
      → NeedsLot type cmd
      → Returns (λ r. IsQuiet r.1) (dispatch (record cmd { type = type }) ex)
  unfolding dispatch
  dispatch_type-IsQuiet new next cmd ex h k p l =
      dispatch_new-IsQuiet laws next (record cmd { type = new }) ex h k (p refl) l
  dispatch_type-IsQuiet cancel next cmd ex h k p l =
      Returns-map _ _ (cancel_order cmd.order_id ex)
        (cancel_order-CancelOk laws cmd.order_id ex h.valid)
        (CancelOk-IsQuiet laws cmd.order_id (lookup cmd.order_id ex.order_symbol_map) ex k)
  dispatch_type-IsQuiet modify next cmd ex h k p l =
      dispatch_modify-IsQuiet laws next (record cmd { type = modify }) ex h k l
  dispatch_type-IsQuiet stats next cmd ex h k p l = k
  dispatch_type-IsQuiet book next cmd ex h k p l = k

  pub later_ids :
      (b : Bool) (next id : ℕ) (cmds : List (Command P))
      → (if b then (next ≤ id) × Ascending (suc id) cmds else Ascending next cmds)
      → Ascending (if b then suc id else next) cmds
  later_ids true next id cmds q = q.1
  later_ids false next id cmds q = q

  dispatch_all-IsQuiet :
      (next : ℕ) (cmds : List (Command P)) (ex : Exchange P)
      → IsReady next ex
      → IsQuiet ex
      → Ascending next cmds
      → All IsLiveCommand cmds
      → Returns (λ r. IsValid r.1 × IsLive r.1 × IsQuiet r.1) (dispatch_all cmds ex)
  unfolding dispatch_all
  dispatch_all-IsQuiet next [] ex h k a l = (h.valid, h.live, k)
  dispatch_all-IsQuiet next (cmd ∷ cmds) ex h k a l =
      let after = next_id cmd.type next cmd in
      Returns->>= (λ (r : List (Report P) × Exchange P). IsReady after r.1 × IsQuiet r.1) _
        (dispatch cmd ex) _
        (Returns-both _ _ (dispatch cmd ex)
          (dispatch_type-IsReady cmd.type next cmd ex h (λ e. (rw e at a).0) l.0)
          (dispatch_type-IsQuiet cmd.type next cmd ex h k (λ e. (rw e at a).0) l.0))
        (λ r j.
          Returns->>= (λ (s : List (Report P) × Exchange P). IsValid s.1 × IsLive s.1 × IsQuiet s.1)
            _ (dispatch_all cmds r.1) _
            (dispatch_all-IsQuiet after cmds r.1 j.0 j.1
              (later_ids (is_new cmd.type) next cmd.order_id cmds a) l.1)
            (λ s i. i))

  pub empty_exchange-IsReady : (next : ℕ) → IsReady next (empty_exchange {P = P})
  unfolding lookup
  empty_exchange-IsReady next = record {
    valid = empty_exchange-IsValid;
    live = empty_exchange-IsLive P;
    below = λ id s e. absurd (none-ne-some s e);
  }

  -- Over any lines of input that ask for live quantities only, as long as the id counter does not wrap,
  -- the matching thread's calls on the exchange, from the empty one and in the order of the queue, all
  -- return: no call is undefined or runs out of fuel, whatever ids and symbols the clients cancel or
  -- modify. The exchange they leave is valid, every order that rests in it is live, and in no book does
  -- a bid reach an ask.
  -- The order of the prices is `IsOrdered`.
  pub process_lines-dispatch_all :
      (zero_price : P) (read_price : Text → Option (P × Text)) (lines : List (Text × Clocks))
      (next : ℕ)
      → next + length lines < 2 ^ 64
      → All IsLiveCommand (process_lines zero_price read_price lines next)
      → Returns
          (λ r. IsValid r.1 × IsLive r.1 × IsQuiet r.1)
          (dispatch_all (process_lines zero_price read_price lines next) empty_exchange)
  process_lines-dispatch_all zero_price read_price lines next b l =
      dispatch_all-IsQuiet next (process_lines zero_price read_price lines next) empty_exchange
        (empty_exchange-IsReady next) (empty_exchange-IsQuiet P)
        (process_lines-Ascending zero_price read_price lines next b) l
