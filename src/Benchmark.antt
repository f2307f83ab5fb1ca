-- ===== src/Benchmark.antt =====
-- benchmark.cpp: synthetic orders from one thread, through a queue, to an exchange on another. The
-- template parameter `QueueType` is a `Queue`; the clocks are arguments, and so is `halves`, the
-- `double` that is half of a small natural number (all prices of the benchmark are such).
pub mod Orders
pub mod Step
pub mod Runs
pub mod Joined
pub mod Parts
pub mod Scales
pub mod Comparison
use order_matching_engine.Base.{
  ℕ, suc, ◌+◌, ◌%◌, Bool, ◌&&◌, List, [], ◌∷◌, ltb, eqb, if◌then◌else◌, get_or, Text,
}
use order_matching_engine.Base.Exec.{Exec, ok, ◌>>=◌}
use order_matching_engine.Base.Int.{ℤ, pos}
use order_matching_engine.Order.{Side, buy, sell, Price, Order, new, Command}
use order_matching_engine.Exchange
use order_matching_engine.Exchange.{Exchange, empty_exchange}
use order_matching_engine.LatencyTracker.{
  LatencyTracker, record_command, reset, Percent, p50, p95, p99, get_avg_e2e, get_min_e2e,
  get_max_e2e, get_percentile_e2e,
}
use order_matching_engine.Queue.{Queue}
use order_matching_engine.Relay.{Turn, Relay, ready, run}
use order_matching_engine.Server.Engine.{Instants, order_of, stamped}
use order_matching_engine.Server.Stream.{copy_symbol}

-- "AAPL", "TSLA", "INFY", "GOOG", "MSFT"
abbrev pub bench_symbols : List Text
bench_symbols =
    (65 ∷ 65 ∷ 80 ∷ 76 ∷ [])
    ∷ (84 ∷ 83 ∷ 76 ∷ 65 ∷ [])
    ∷ (73 ∷ 78 ∷ 70 ∷ 89 ∷ [])
    ∷ (71 ∷ 79 ∷ 79 ∷ 71 ∷ [])
    ∷ (77 ∷ 83 ∷ 70 ∷ 84 ∷ [])
    ∷ []

abbrev pub num_symbols : ℕ
num_symbols = 5

-- The stamps that the pushing thread sets: `ts_network_recv` and `ts_queue_push`.
pub record Sent : Type 0 where
  pub recv : ℤ
  pub push : ℤ

-- The parts of the benchmark whose consumers differ: part 3 copies the command's timestamp to the
-- order, parts 4 and 5 write 0.
pub data Part : Type 0 where
  throughput comparison : Part

-- What the consumer thread owns.
pub record BenchState (P : Type 0) : Type 0 where
  pub exchange : Exchange P
  pub tracker : LatencyTracker

module _ {P : Type 0} (halves : ℕ → P) where
  -- The side and the price of order `id`.
  abbrev pub bench_quote : ℕ → Side × P
  bench_quote id =
      if eqb (id % 100) 0 && ltb 0 id
      then if eqb (id % 200) 0 then (buy, halves 219) else (sell, halves 200)
      else if eqb (id % 2) 0
      then (buy, halves (200 + id % 10))
      else (sell, halves (210 + id % 10))

  unfoldable pub make_command : ℕ → Command P
  make_command id = record {
    type = new;
    order_id = id;
    side = (bench_quote id).0;
    price = (bench_quote id).1;
    quantity = pos (1 + id % 100);
    timestamp = pos 0;
    symbol = copy_symbol (get_or bench_symbols (id % num_symbols) []);
    ts_network_recv = pos 0;
    ts_queue_push = pos 0;
    ts_queue_pop = pos 0;
    ts_process_start = pos 0;
    ts_match_complete = pos 0;
  }

  -- The commands with ids from `id` on, one for each pair of stamps of the pushing thread.
  unfoldable pub sent_commands : ℕ → List Sent → List (Command P)
  sent_commands id [] = []
  sent_commands id (s ∷ sents) =
      record (make_command id) { ts_network_recv = s.recv; ts_queue_push = s.push }
      ∷ sent_commands (suc id) sents

-- `while (processed < numOrders)`
abbrev pub more_orders : ℕ → Bool → ℕ → Bool
more_orders num_orders running processed = ltb processed num_orders

module _ {P : Type 0} ⦃d : Price P⦄ where
  abbrev pub bench_order : Part → Command P → Order P
  bench_order throughput cmd = order_of cmd
  bench_order comparison cmd = record (order_of cmd) { timestamp = pos 0 }

  -- One command that the consumer has popped; its output is thrown away.
  unfoldable pub consume_command : Part → Instants → Command P → BenchState P → Exec (BenchState P)
  consume_command part t cmd c = do
    let a = Exchange.add_order cmd.symbol (bench_order part cmd) c.exchange
    r ← Exchange.match_orders cmd.symbol a.1
    tracker ← record_command (stamped cmd t) c.tracker
    ok (record { exchange = r.1; tracker = tracker })

  -- The start of a run: commands 1, 2, … on an empty queue, an empty exchange and the tracker reset.
  abbrev pub bench_start :
      {Q : Type 0} → (ℕ → P) → List Sent → Q → LatencyTracker → Relay (Command P) Q (BenchState P)
  bench_start halves sents q tracker =
      ready (sent_commands halves 1 sents) q
        (record { exchange = empty_exchange; tracker = reset tracker })

  -- The two threads up to the end of a schedule of their turns.
  unfoldable pub run_benchmark :
      {Q : Type 0}
      → Part
      → Queue (Command P) Q
      → ℕ
      → List (Turn Instants)
      → Relay (Command P) Q (BenchState P)
      → Exec (Relay (Command P) Q (BenchState P))
  run_benchmark part queue num_orders turns r =
      run queue (more_orders num_orders) (consume_command part) turns r

-- What part 3 prints, in nanoseconds: the average, the percentiles, the least and the greatest latency.
pub record BenchLatencies : Type 0 where
  pub average : ℤ
  pub p50_e2e : ℤ
  pub p95_e2e : ℤ
  pub p99_e2e : ℤ
  pub min_value : ℤ
  pub max_value : ℤ

-- The getters sort the samples in place.
abbrev pub bench_latencies : (Percent → ℕ → ℕ) → LatencyTracker → BenchLatencies × LatencyTracker
bench_latencies rank t =
    let e2e50 = get_percentile_e2e rank p50 t in
    let e2e95 = get_percentile_e2e rank p95 e2e50.1 in
    let e2e99 = get_percentile_e2e rank p99 e2e95.1 in
    (
      record {
        average = get_avg_e2e t;
        p50_e2e = e2e50.0;
        p95_e2e = e2e95.0;
        p99_e2e = e2e99.0;
        min_value = get_min_e2e e2e99.1;
        max_value = get_max_e2e e2e99.1;
      },
      e2e99.1,
    )
