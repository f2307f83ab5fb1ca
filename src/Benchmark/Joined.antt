-- ===== src/Benchmark/Joined.antt =====
-- `consumer.join()` after a run of benchmark.cpp.
use order_matching_engine.Base.{ℕ, ◌≤◌, ◌≡◌, List, [], All, length, if◌then◌else◌, false}
use order_matching_engine.Base.Exec.{Exec, ok, out_of_fuel, ◌>>=◌, Returns, Returns->>=}
use order_matching_engine.Order.{Price, IsOrdered, Command}
use order_matching_engine.LatencyTracker.{LatencyTracker}
use order_matching_engine.Queue.{Queue, IsFifo}
use order_matching_engine.Relay.{Turn, Relay}
use order_matching_engine.Relay.Fair.{rounds, GoingOk}
use order_matching_engine.Server.Engine.{Instants}
use order_matching_engine.Server.Threads.Kept.{AreInstants}
use order_matching_engine.Benchmark.{
  Sent, Part, BenchState, more_orders, sent_commands, bench_start, run_benchmark,
}
use order_matching_engine.Benchmark.Runs.{IsTimed, run_benchmark-fair}
use order_matching_engine.Benchmark.Step.{IsBenched}

-- `consumer.join()`: the schedule must go on until the consumer has left its loop.
abbrev pub joined : {A Q W : Type 0} → ℕ → Relay A Q W → Exec (Relay A Q W)
joined num_orders r = if more_orders num_orders r.running r.processed then out_of_fuel else ok r

-- A fair schedule for these orders, with bounded clocks.
pub record IsFair (bound : ℕ) (sents : List Sent) (turns : List (Turn Instants)) : Type 0 where
  pub times : IsTimed bound sents turns
  pub going : All (GoingOk (AreInstants bound)) turns
  pub enough : length sents ≤ rounds false turns

module _ {P : Type 0} ⦃d : Price P⦄ (laws : IsOrdered P) (halves : ℕ → P) (bound : ℕ)
    (sents : List Sent) (part : Part) {Q : Type 0} {queue : Queue (Command P) Q}
    {holds : Q → List (Command P) → Type 0} (fifo : IsFifo queue holds) (q : Q) (empty : holds q [])
    (tracker : LatencyTracker) (turns : List (Turn Instants)) where
  -- Under a fair schedule the join is reached.
  pub joined_run-IsBenched :
      IsFair bound sents turns
      → Returns
          (λ s. IsBenched bound (sent_commands halves 1 sents) s.worker)
          (run_benchmark part queue (length sents) turns (bench_start halves sents q tracker)
            >>= joined (length sents))
  joined_run-IsBenched f =
      Returns->>=
        (λ (r : Relay (Command P) Q (BenchState P)).
          (more_orders (length sents) r.running r.processed ≡ false)
          × (r.processed ≡ length sents)
          × IsBenched bound (sent_commands halves 1 sents) r.worker)
        _ (run_benchmark part queue (length sents) turns (bench_start halves sents q tracker)) _
        (run_benchmark-fair laws halves bound sents part fifo q empty tracker turns f.times f.going
          f.enough)
        (λ r k. rw k.0 k.2)
