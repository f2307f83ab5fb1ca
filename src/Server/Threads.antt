-- ===== src/Server/Threads.antt =====
-- The two threads of server.cpp: the events of the network thread become the commands that it pushes,
-- the matching thread carries them out while `running` is set. A push that the ring refuses is retried.
pub mod Kept
pub mod Next
pub mod Printed
pub mod Step
pub mod Runs
pub mod Stopped
pub mod Shutdown
use order_matching_engine.Base.{ℕ, Bool, Option, List, [], ◌∷◌, ◌++◌, Text}
use order_matching_engine.Base.Exec.{Exec, ok, ◌>>=◌}
use order_matching_engine.Base.Int.{ℤ}
use order_matching_engine.Order.{Price, stats, Command}
use order_matching_engine.LatencyTracker.{Percent}
use order_matching_engine.Queue.{Queue}
use order_matching_engine.Relay.{Turn, stop, Relay, ready, run, push_once}
use order_matching_engine.Server.Parser.{process_lines}
use order_matching_engine.Server.Network.{Event, on_events, inputs}
use order_matching_engine.Server.Engine.{Engine, started, Output, Instants, handle}

-- What the matching thread owns, and what it has printed.
pub record Served (P : Type 0) : Type 0 where
  pub printed : List (Output P)
  pub engine : Engine P

abbrev pub unserved : {P : Type 0} → Served P
unserved = record { printed = []; engine = started }

-- `while (running.load(std::memory_order_relaxed))`
abbrev pub while_running : Bool → ℕ → Bool
while_running running processed = running

module _ {P : Type 0} ⦃d : Price P⦄ (rank : Percent → ℕ → ℕ) where
  unfoldable pub serve_command : Instants → Command P → Served P → Exec (Served P)
  serve_command t cmd s = do
    r ← handle rank cmd t s.engine
    ok (record { printed = s.printed ++ r.0; engine = r.1 })

  unfoldable pub run_server :
      {Q : Type 0}
      → Queue (Command P) Q
      → List (Turn Instants)
      → Relay (Command P) Q (Served P)
      → Exec (Relay (Command P) Q (Served P))
  run_server queue turns r = run queue while_running serve_command turns r

module _ {P : Type 0} (zero_price : P) (read_price : Text → Option (P × Text)) where
  -- The commands that the events make the network thread push, with `nextOrderId` from 1 on.
  unfoldable pub pushed_commands : List Event → Exec (List (Command P))
  pushed_commands events =
      on_events events [] >>= λ r. ok (process_lines zero_price read_price (inputs r.0) 1)

  -- Both threads at their start, before the network thread pushes the commands of the events.
  unfoldable pub server_start :
      {Q : Type 0} → List Event → Q → Exec (Relay (Command P) Q (Served P))
  server_start events q = pushed_commands events >>= λ items. ok (ready items q unserved)

module _ {P : Type 0} where
  -- `shutdown_cmd`, whose other fields are not set: they are what `unset` has.
  abbrev pub shutdown_command : Command P → ℤ → ℤ → Command P
  shutdown_command unset recv push = record unset {
    type = stats;
    ts_network_recv = recv;
    ts_queue_push = push;
  }

  -- The shutdown after the event loop: one push of `shutdown_cmd`, and `running.store(false)`, with what the
  -- matching thread does in between and until it is joined.
  unfoldable pub shut_down :
      ⦃d : Price P⦄ {Q : Type 0}
      → (Percent → ℕ → ℕ)
      → Queue (Command P) Q
      → Command P
      → List (Turn Instants)
      → List (Turn Instants)
      → Relay (Command P) Q (Served P)
      → Exec (Relay (Command P) Q (Served P))
  shut_down rank queue last between after r = do
    let p = push_once queue last r
    s ← run_server rank queue between p.1
    run_server rank queue (stop ∷ after) s
