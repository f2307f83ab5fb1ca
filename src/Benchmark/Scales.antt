-- ===== src/Benchmark/Scales.antt =====
-- Part 3 of benchmark.cpp, `runBenchmark` at several scales with one tracker.
use order_matching_engine.Base.{subst, ℕ, ◌≡◌, refl, List, [], ◌∷◌, All, length, suc, ap, arith}
use order_matching_engine.Base.Exec.{Exec, ok, ◌>>=◌, Returns, Returns->>=, bind_assoc}
use order_matching_engine.Order.{Price, IsOrdered, Command}
use order_matching_engine.SpscQueue.{SpscQueue}
use order_matching_engine.SpscQueue.Ring.{Holds}
use order_matching_engine.Queue.Implementations.{spsc_queue, spsc_queue-IsFifo}
use order_matching_engine.LatencyTracker.{LatencyTracker, fresh, reset, Percent}
use order_matching_engine.Relay.{Turn, Relay}
use order_matching_engine.Server.Engine.{Instants}
use order_matching_engine.Benchmark.{
  Sent, throughput, BenchState, BenchLatencies, bench_latencies, bench_start, run_benchmark,
  sent_commands,
}
use order_matching_engine.Benchmark.Joined.{joined, IsFair, joined_run-IsBenched}
use order_matching_engine.Benchmark.Parts.{ring_slots}
use order_matching_engine.Benchmark.Step.{IsBenched}

-- The run at one scale: the stamps of its orders, the schedule, and the new ring.
record Scale (P : Type 0) : Type 0 where
  pub sents : List Sent
  pub turns : List (Turn Instants)
  pub ring : SpscQueue (Command P)

module _ {P : Type 0} ⦃d : Price P⦄ (halves : ℕ → P) (rank : Percent → ℕ → ℕ) where
  -- `runBenchmark` with the latencies that it prints.
  unfoldable throughput_run : Scale P → LatencyTracker → Exec (BenchLatencies × LatencyTracker)
  throughput_run scale tracker = do
    r ←
        run_benchmark throughput (spsc_queue ring_slots) (length scale.sents) scale.turns
          (bench_start halves scale.sents scale.ring tracker)
    s ← joined (length scale.sents) r
    ok (bench_latencies rank s.worker.tracker)

  -- The loop over the scales, with one tracker.
  unfoldable throughput_benchmark :
      List (Scale P) → LatencyTracker → Exec (List BenchLatencies × LatencyTracker)
  throughput_benchmark [] tracker = ok ([], tracker)
  throughput_benchmark (scale ∷ rest) tracker = do
    r ← throughput_run scale tracker
    rs ← throughput_benchmark rest r.1
    ok (r.0 ∷ rs.0, rs.1)

  -- What a scale prints does not depend on the runs before it: `reset` clears the tracker.
  throughput_run-fresh :
      (scale : Scale P) (tracker : LatencyTracker)
      → throughput_run scale tracker ≡ throughput_run scale fresh
  unfolding throughput_run reset
  throughput_run-fresh scale tracker = refl

  -- The schedule of a scale is fair, its clocks are bounded, and its ring is empty.
  record IsScale (bound : ℕ) (scale : Scale P) : Type 0 where
    pub fair : IsFair bound scale.sents scale.turns
    pub empty : Holds ring_slots scale.ring []

  throughput_run-Returns :
      (laws : IsOrdered P) (bound : ℕ) (scale : Scale P) (tracker : LatencyTracker)
      → IsScale bound scale
      → Returns (λ r. Unit) (throughput_run scale tracker)
  unfolding throughput_run
  throughput_run-Returns laws bound scale tracker f =
      let run =
        run_benchmark throughput (spsc_queue ring_slots) (length scale.sents) scale.turns
          (bench_start halves scale.sents scale.ring tracker) in
      subst (Returns (λ r. Unit))
        (bind_assoc run (joined (length scale.sents))
          (λ s. ok (bench_latencies rank s.worker.tracker)))
        (Returns->>=
          (λ (r : Relay (Command P) (SpscQueue (Command P)) (BenchState P)).
            IsBenched bound (sent_commands halves 1 scale.sents) r.worker)
          _ (run >>= joined (length scale.sents)) _
          (joined_run-IsBenched laws halves bound scale.sents throughput
            (spsc_queue-IsFifo ring_slots (omega arith)) scale.ring f.empty tracker scale.turns
            f.fair)
          (λ r b. tt))

  -- Part 3 ends: under fair schedules each scale prints its latencies, in order and each once. All clock
  -- readings are in [0, bound), and `bound` times the number of orders of a scale is below 2^63.
  -- The order of the prices is `IsOrdered`.
  throughput_benchmark-Returns :
      (laws : IsOrdered P) (bound : ℕ) (runs : List (Scale P)) (tracker : LatencyTracker)
      → All (IsScale bound) runs
      → Returns (λ r. length r.0 ≡ length runs) (throughput_benchmark runs tracker)
  unfolding throughput_benchmark
  throughput_benchmark-Returns laws bound [] tracker f = refl
  throughput_benchmark-Returns laws bound (scale ∷ rest) tracker f =
      Returns->>= (λ (r : BenchLatencies × LatencyTracker). Unit) _ (throughput_run scale tracker) _
        (throughput_run-Returns laws bound scale tracker f.0)
        (λ r u.
          Returns->>= (λ (rs : List BenchLatencies × LatencyTracker). length rs.0 ≡ length rest) _
            (throughput_benchmark rest r.1) _ (throughput_benchmark-Returns laws bound rest r.1 f.1)
            (λ rs e. ap suc e))
