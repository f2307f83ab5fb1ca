-- ===== src/Benchmark/Parts.antt =====
-- Parts 4 and 5 of benchmark.cpp: the two queues one after the other, and the breakdown of the latencies.
use order_matching_engine.Base.{
  ℕ, ◌*◌, ◌^◌, ◌<◌, ◌≡◌, subst, false, Option, List, [], arith, length,
}
use order_matching_engine.Base.Exec.{Exec, ok, ◌>>=◌, Returns, Returns-map}
use order_matching_engine.Order.{Price, IsOrdered, Command}
use order_matching_engine.SpscQueue.{SpscQueue}
use order_matching_engine.SpscQueue.Ring.{Holds}
use order_matching_engine.MutexQueue.{MutexQueue}
use order_matching_engine.Queue.Implementations.{spsc_queue, mutex_queue, spsc_queue-IsFifo}
use order_matching_engine.LatencyTracker.{LatencyTracker, fresh, Percent, StatsReport, print_stats}
use order_matching_engine.LatencyTracker.Stats.{print_stats-IsConsistent}
use order_matching_engine.LatencyTracker.Totals.{IsConsistent}
use order_matching_engine.LatencyTracker.Bounds.{Within, sum_of_times}
use order_matching_engine.Relay.{Turn, Relay}
use order_matching_engine.Server.Engine.{Instants}
use order_matching_engine.Benchmark.{
  more_orders, Sent, comparison, BenchState, bench_start, run_benchmark,
}
use order_matching_engine.Benchmark.Joined.{joined}
use order_matching_engine.Benchmark.Runs.{IsTimed, run_benchmark-Returned}

abbrev pub ring_slots : ℕ
ring_slots = 1024

module _ {P : Type 0} ⦃d : Price P⦄ (halves : ℕ → P) where
  -- The run of part 5, and that of part 4 on the ring.
  abbrev pub ring_run :
      List Sent
      → List (Turn Instants)
      → SpscQueue (Command P)
      → Exec (Relay (Command P) (SpscQueue (Command P)) (BenchState P))
  ring_run sents turns q =
      run_benchmark comparison (spsc_queue ring_slots) (length sents) turns
        (bench_start halves sents q fresh)
      >>= joined (length sents)

  abbrev pub locked_run :
      List Sent
      → List (Turn Instants)
      → Exec (Relay (Command P) (MutexQueue (Command P)) (BenchState P))
  locked_run sents turns =
      run_benchmark comparison mutex_queue (length sents) turns
        (bench_start halves sents (record { items = [] }) fresh)
      >>= joined (length sents)

  -- Part 4: the trackers of both runs, whose averages and percentiles are printed side by side.
  abbrev pub compare_queues :
      List Sent
      → List Sent
      → List (Turn Instants)
      → List (Turn Instants)
      → SpscQueue (Command P)
      → Exec (LatencyTracker × LatencyTracker)
  compare_queues sents sents' turns turns' q = do
    r ← ring_run sents turns q
    r' ← locked_run sents' turns'
    ok (r.worker.tracker, r'.worker.tracker)

  -- Part 5.
  unfoldable profile_breakdown :
      (Percent → ℕ → ℕ)
      → List Sent
      → List (Turn Instants)
      → SpscQueue (Command P)
      → Exec (Option StatsReport × LatencyTracker)
  profile_breakdown rank sents turns q = do
    r ← ring_run sents turns q
    print_stats rank r.worker.tracker

  -- Part 5 prints its report: where the clock readings are in [0, bound) and three times `bound` times
  -- the number of orders is below 2^63, a schedule after which the consumer has finished is followed by
  -- `printStats`, which returns, on a tracker that is consistent before and after it.
  -- The order of the prices is `IsOrdered`.
  profile_breakdown-Returns :
      (laws : IsOrdered P) (rank : Percent → ℕ → ℕ) (bound : ℕ) (sents : List Sent)
      (turns : List (Turn Instants)) (q : SpscQueue (Command P))
      (r : Relay (Command P) (SpscQueue (Command P)) (BenchState P))
      → Holds ring_slots q []
      → IsTimed bound sents turns
      → 3 * (length sents * bound) < 2 ^ 63
      → run_benchmark comparison
          (spsc_queue ring_slots)
          (length sents)
          turns
          (bench_start halves sents q fresh)
        ≡ ok r
      → r.processed ≡ length sents
      → Returns
          (λ (s : Option StatsReport × LatencyTracker).
            IsConsistent r.worker.tracker × IsConsistent s.1)
          (profile_breakdown rank sents turns q)
  unfolding profile_breakdown
  profile_breakdown-Returns laws rank bound sents turns q r empty times h returns done =
      let c =
        run_benchmark-Returned laws halves bound sents comparison
          (spsc_queue-IsFifo ring_slots (omega arith)) q empty fresh turns times r returns in
      let all : length r.finished ≡ length sents = omega (arith, c.counted, done) in
      let within = subst (λ n. Within (n * bound) r.worker.tracker) all c.kept.within in
      let f = sum_of_times (length sents * bound) r.worker.tracker within h in
      let over : more_orders (length sents) r.running r.processed ≡ false = ground (arith, done) in
      rw (returns, over)
        (Returns-map (λ (s : Option StatsReport × LatencyTracker). IsConsistent s.1) _
          (print_stats rank r.worker.tracker)
          (print_stats-IsConsistent rank r.worker.tracker c.kept.consistent f.0 f.1)
          (λ s k. (c.kept.consistent, k)))
