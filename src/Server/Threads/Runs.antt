-- ===== src/Server/Threads/Runs.antt =====
-- Whole runs of the server, from the events of the network thread to the exchange.
use order_matching_engine.Base.{
  ℕ, ◌+◌, ◌*◌, ◌^◌, ◌<◌, ◌≤◌, ◌≡◌, refl, sym, subst, true, false, Option, List, [], ◌∷◌, ◌++◌,
  arith, Text, All, length, length-append, ap,
}
use order_matching_engine.Base.Exec.{ok, ◌>>=◌, Returns, Returns-map}
use order_matching_engine.Order.{Price, IsOrdered, Command}
use order_matching_engine.Exchange.Loads.{empty_exchange-IsLoaded}
use order_matching_engine.Exchange.Quiet.{empty_exchange-IsQuiet}
use order_matching_engine.LatencyTracker.{fresh, Percent}
use order_matching_engine.LatencyTracker.Totals.{fresh-IsConsistent}
use order_matching_engine.LatencyTracker.Bounds.{prefix_product, Within-≡, fresh-Within}
use order_matching_engine.Queue.{Queue, IsFifo}
use order_matching_engine.Relay.{Turn, Relay, ready}
use order_matching_engine.Relay.Fair.{rounds, GoingOk, run-fair}
use order_matching_engine.Server.Replay.{Replays}
use order_matching_engine.Relay.Carry.{Keeps, Carried, TickOk, ready-Carried, run-Carried}
use order_matching_engine.Server.Parser.{process_lines}
use order_matching_engine.Server.Ids.{Ascending, process_lines-Ascending}
use order_matching_engine.Server.Network.{Event, Call, Buffers, on_events, inputs}
use order_matching_engine.Server.Engine.{Instants, dispatch_all}
use order_matching_engine.Exchange.Operations.{empty_exchange-Agrees}
use order_matching_engine.Server.Pipeline.{empty_exchange-IsReady}
use order_matching_engine.Server.Threads.{
  Served, unserved, while_running, serve_command, run_server, pushed_commands, server_start,
}
use order_matching_engine.Server.Threads.Kept.{
  AreInstants, IsMarket, IsServable, Ascending-next_after, IsServed,
}
use order_matching_engine.Server.Threads.Step.{serve_command-IsServed}

All-at :
    {A : Type 0} (Q : A → Type 0) (before : List A) (x : A) (after : List A)
    → All Q (before ++ x ∷ after)
    → Q x
All-at Q [] x after h = h.0
All-at Q (b ∷ before) x after h = All-at Q before x after h.1

prefix_length :
    {A : Type 0} (items before : List A) (x : A) (after : List A)
    → items ≡ before ++ x ∷ after
    → length before ≤ length items
prefix_length items before x after e = omega (arith, ap length e, length-append before (x ∷ after))

pub length-inputs : (calls : List Call) → length (inputs calls) ≡ length calls
length-inputs [] = refl
length-inputs (c ∷ calls) = omega (arith, length-inputs calls)

module _ {P : Type 0} ⦃d : Price P⦄ (laws : IsOrdered P) (rank : Percent → ℕ → ℕ)
    (bound top : ℕ) where
  pub serve_command-Keeps :
      (items : List (Command P))
      → Ascending 1 items
      → All (IsServable (length items) bound top) items
      → 0 < bound
      → 3 * (length items * bound) < 2 ^ 63
      → Keeps items (AreInstants bound) (serve_command rank) (IsServed bound top)
  serve_command-Keeps items a k p h = record {
    step = λ tick x before after s t e b.
        serve_command-IsServed laws rank (length items) bound top x tick before s
          (All-at (IsServable (length items) bound top) before x after
            (subst (All (IsServable (length items) bound top)) e k))
          t (prefix_length items before x after e) p
          (omega (arith, prefix_product bound items before x after e))
          (Ascending-next_after 1 before x after (subst (Ascending 1) e a)) b;
  }

  pub start-IsServed : IsServed bound top [] (unserved {P = P})
  unfolding dispatch_all
  start-IsServed = record {
    ready = empty_exchange-IsReady laws 1;
    quiet = empty_exchange-IsQuiet P;
    loaded = empty_exchange-IsLoaded P top;
    replays = refl;
    agrees = empty_exchange-Agrees;
    says = refl;
    consistent = fresh-IsConsistent;
    within = Within-≡ 0 (0 * bound) fresh (omega arith) fresh-Within;
  }

  module _ (zero_price : P) (read_price : Text → Option (P × Text)) where
    -- The server from end to end. Take any events of the network thread whose lines are fewer than
    -- 2^64 - 1 and become commands of live quantities, none above `top`; any queue that is first in, first
    -- out, and any schedule of the two threads, the shutdown included. Every clock reading is in
    -- [0, bound), and `3 * bound` times the number of commands is below 2^63; if a BOOK is among the
    -- commands, `top` times their number is below 2^31. Then the run returns: no call is undefined, runs out
    -- of fuel or overflows, the sums that BOOK prints included. The matching thread has carried out a prefix
    -- of the commands, in order and each once; the next ones are in the queue, and the rest waits. The
    -- exchange is the one that this prefix leaves of the empty exchange, and agrees with the market that it
    -- makes of the empty market, whose lines are the printed lines about orders; it is valid, its orders are
    -- live and no book is crossed; the tracker is consistent.
    -- The order of the prices is `IsOrdered`.
    pub run_server-Carried :
        {Q : Type 0} {queue : Queue (Command P) Q} {holds : Q → List (Command P) → Type 0}
        (fifo : IsFifo queue holds) (q : Q) (events : List Event) (r : List Call × Buffers)
        (turns : List (Turn Instants))
        → holds q []
        → on_events events [] ≡ ok r
        → 1 + length r.0 < 2 ^ 64
        → All
            (IsServable (length (process_lines zero_price read_price (inputs r.0) 1)) bound top)
            (process_lines zero_price read_price (inputs r.0) 1)
        → All (TickOk (AreInstants bound)) turns
        → 0 < bound
        → 3 * (length (process_lines zero_price read_price (inputs r.0) 1) * bound) < 2 ^ 63
        → Returns
            (Carried holds
              (process_lines zero_price read_price (inputs r.0) 1)
              (IsServed bound top))
            (server_start zero_price read_price events q >>= run_server rank queue turns)
    unfolding run_server server_start pushed_commands
    run_server-Carried fifo q events r turns empty e n k t p h =
        let items = process_lines zero_price read_price (inputs r.0) 1 in
        let a =
          process_lines-Ascending zero_price read_price (inputs r.0) 1
            (omega (arith, length-inputs r.0)) in
        rw e (
          run-Carried fifo while_running (serve_command-Keeps items a k p h) turns _ t
            (ready-Carried items (IsServed bound top) q unserved empty start-IsServed))

    -- Under every fair schedule the server carries out everything: where events, commands, clocks and queue
    -- are as for a run from end to end, and the schedule does not clear `running` and has as many rounds (a
    -- turn of the network thread, and later one of the matching thread) as there are commands, in whatever
    -- order and however often the queue is found full or empty, the run returns with all commands carried
    -- out in order, and the exchange is the one that they leave of the empty one: its books hold the orders,
    -- and its ids the symbols, of the market that the commands make of the empty market, and the lines about
    -- orders that have been printed are the lines of that market, in order.
    -- The order of the prices is `IsOrdered`.
    pub run_server-fair :
        {Q : Type 0} {queue : Queue (Command P) Q} {holds : Q → List (Command P) → Type 0}
        (fifo : IsFifo queue holds) (q : Q) (events : List Event) (r : List Call × Buffers)
        (turns : List (Turn Instants))
        → holds q []
        → on_events events [] ≡ ok r
        → 1 + length r.0 < 2 ^ 64
        → All
            (IsServable (length (process_lines zero_price read_price (inputs r.0) 1)) bound top)
            (process_lines zero_price read_price (inputs r.0) 1)
        → All (GoingOk (AreInstants bound)) turns
        → 0 < bound
        → 3 * (length (process_lines zero_price read_price (inputs r.0) 1) * bound) < 2 ^ 63
        → length (process_lines zero_price read_price (inputs r.0) 1) ≤ rounds false turns
        → Returns
            (λ (s : Relay (Command P) Q (Served P)).
              (s.finished ≡ process_lines zero_price read_price (inputs r.0) 1)
              × Replays s.finished s.worker.engine.exchange
              × IsMarket (process_lines zero_price read_price (inputs r.0) 1) s.worker)
            (server_start zero_price read_price events q >>= run_server rank queue turns)
    unfolding run_server server_start pushed_commands
    run_server-fair fifo q events r turns empty e n k t p h enough =
        let items = process_lines zero_price read_price (inputs r.0) 1 in
        let a =
          process_lines-Ascending zero_price read_price (inputs r.0) 1
            (omega (arith, length-inputs r.0)) in
        rw e (
          Returns-map _ _ (run_server rank _ turns (ready items q unserved))
            (run-fair fifo while_running (serve_command-Keeps items a k p h) true turns
              (ready items q unserved) (λ i l. refl) t refl
              (ready-Carried items (IsServed bound top) q unserved empty start-IsServed)
              (omega arith))
            (λ s f. (
              sym f.1,
              f.2.replays,
              subst (λ l. IsMarket l s.worker) (sym f.1) (f.2.agrees, f.2.says),
            )))
