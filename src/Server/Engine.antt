-- ===== src/Server/Engine.antt =====
-- `matchingEngineThread`: one command that `pop` has delivered. The clock readings are arguments.
use order_matching_engine.Base.{ℕ, Option, List, [], ◌∷◌, ◌++◌, map}
use order_matching_engine.Base.Exec.{Exec, ok, ◌>>=◌}
use order_matching_engine.Base.Int.{ℤ}
use order_matching_engine.Order.{Price, Order, new, cancel, modify, stats, book, Command}
use order_matching_engine.Report.{Report}
use order_matching_engine.Exchange
use order_matching_engine.Exchange.{Exchange, empty_exchange}
use order_matching_engine.LatencyTracker.{
  LatencyTracker, fresh, record_command, OrderLatency, print_order_latency, Percent, StatsReport,
  print_stats,
}

pub record Engine (P : Type 0) : Type 0 where
  pub exchange : Exchange P
  pub tracker : LatencyTracker

abbrev pub started : {P : Type 0} → Engine P
started = record { exchange = empty_exchange; tracker = fresh }

pub data Output (P : Type 0) : Type 0 where
  line : (report : Report P) → Output P
  order_latency : (latency : OrderLatency) → Output P
  latency_stats : (report : Option StatsReport) → Output P

-- `now_ns` after the pop, before and after the dispatch.
pub record Instants : Type 0 where
  pub popped : ℤ
  pub started_at : ℤ
  pub completed : ℤ

module _ {P : Type 0} ⦃d : Price P⦄ where
  abbrev pub order_of : Command P → Order P
  order_of cmd = record {
    order_id = cmd.order_id;
    side = cmd.side;
    price = cmd.price;
    quantity = cmd.quantity;
    timestamp = cmd.timestamp;
  }

  -- The `switch` for a command that is timed.
  unfoldable pub dispatch_new : Command P → Exchange P → Exec (List (Report P) × Exchange P)
  dispatch_new cmd ex = do
    let a = Exchange.add_order cmd.symbol (order_of cmd) ex
    r ← Exchange.match_orders cmd.symbol a.1
    ok (a.0 ++ r.0, r.1)

  unfoldable pub dispatch_modify : Command P → Exchange P → Exec (List (Report P) × Exchange P)
  dispatch_modify cmd ex = do
    m ← Exchange.modify_order cmd.order_id cmd.symbol cmd.quantity cmd.price cmd.timestamp ex
    r ← Exchange.match_orders cmd.symbol m.1
    ok (m.0 ++ r.0, r.1)

  -- The `switch` for the commands that are timed; it does nothing for the others.
  unfoldable pub dispatch : Command P → Exchange P → Exec (List (Report P) × Exchange P)
  dispatch cmd ex = elim cmd.type [
    | new ↦ dispatch_new cmd ex
    | cancel ↦ Exchange.cancel_order cmd.order_id ex
    | modify ↦ dispatch_modify cmd ex
    | stats ↦ ok ([], ex)
    | book ↦ ok ([], ex)
  ]

  -- The exchange after a run of commands; reports do not change it.
  unfoldable pub dispatch_all : List (Command P) → Exchange P → Exec (List (Report P) × Exchange P)
  dispatch_all [] ex = ok ([], ex)
  dispatch_all (cmd ∷ cmds) ex = do
    r ← dispatch cmd ex
    rs ← dispatch_all cmds r.1
    ok (r.0 ++ rs.0, rs.1)

  -- The end of the loop's body: the last stamp, `record` and `printOrderLatency`.
  abbrev pub finish :
      Command P → Engine P → List (Report P) × Exchange P → Exec (List (Output P) × Engine P)
  finish cmd e r = do
    tracker ← record_command cmd e.tracker
    latency ← print_order_latency cmd
    ok (map line r.0 ++ order_latency latency ∷ [], record { exchange = r.1; tracker = tracker })

  abbrev pub stamped : Command P → Instants → Command P
  stamped cmd t = record cmd {
    ts_queue_pop = t.popped;
    ts_process_start = t.started_at;
    ts_match_complete = t.completed;
  }

  unfoldable pub handle :
      (Percent → ℕ → ℕ) → Command P → Instants → Engine P → Exec (List (Output P) × Engine P)
  handle rank cmd t e = elim cmd.type [
    | stats ↦ do
      r ← print_stats rank e.tracker
      ok (
        latency_stats r.0 ∷ map line (Exchange.print_stats e.exchange),
        record e { tracker = r.1 },
      )
    | book ↦ do lines ← Exchange.print_book cmd.symbol e.exchange; ok (map line lines, e)
    | _ ↦ dispatch cmd e.exchange >>= finish (stamped cmd t) e
  ]
