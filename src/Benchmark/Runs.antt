-- ===== src/Benchmark/Runs.antt =====
-- Runs of the benchmark, on any queue and under schedules of its two threads.
use order_matching_engine.Base.{
  true, false, ℕ, ◌*◌, ◌^◌, ◌<◌, ◌≤◌, ◌≡◌, refl, ◌∙◌, sym, subst, List, [], arith, length, All,
}
use order_matching_engine.Base.Exec.{ok, Returns, Returns-map, Returns-ok}
use order_matching_engine.Order.{Price, IsOrdered, Command}
use order_matching_engine.Exchange.{empty_exchange}
use order_matching_engine.Exchange.Quiet.{empty_exchange-IsQuiet}
use order_matching_engine.LatencyTracker.{LatencyTracker, fresh, reset}
use order_matching_engine.LatencyTracker.Totals.{fresh-IsConsistent}
use order_matching_engine.LatencyTracker.Bounds.{prefix_product, Within-≡, fresh-Within}
use order_matching_engine.Queue.{Queue, IsFifo}
use order_matching_engine.Relay.{Turn, Relay}
use order_matching_engine.Relay.Carry.{
  Keeps, Carried, TickOk, ready-Carried, run-Carried, finished_all,
}
use order_matching_engine.Relay.Fair.{rounds, GoingOk, run-fair}
use order_matching_engine.Server.Engine.{Instants, dispatch_all}
use order_matching_engine.Server.Pipeline.{empty_exchange-IsReady}
use order_matching_engine.Server.Threads.Kept.{AreInstants}
use order_matching_engine.Server.Replay.{Leaves, Leaves-unique}
use order_matching_engine.Benchmark.{
  Sent, Part, BenchState, sent_commands, consume_command, more_orders, bench_start, run_benchmark,
}
use order_matching_engine.Benchmark.Orders.{
  IsSent, sent_commands-IsBenchCommand, length-sent_commands, dispatch_all-stamps,
}
use order_matching_engine.Benchmark.Step.{IsBenched, consume_command-IsBenched}

-- Both threads' clock readings are below the bound, which the sums of all the latencies respect.
pub record IsTimed (bound : ℕ) (sents : List Sent) (turns : List (Turn Instants)) : Type 0 where
  pub sent : All (IsSent bound) sents
  pub ticks : All (TickOk (AreInstants bound)) turns
  pub positive : 0 < bound
  pub sums : length sents * bound < 2 ^ 63

module _ {P : Type 0} ⦃d : Price P⦄ (laws : IsOrdered P) (halves : ℕ → P) (bound : ℕ)
    (sents : List Sent) (part : Part) where
  pub consume_command-Keeps :
      All (IsSent bound) sents
      → 0 < bound
      → length sents * bound < 2 ^ 63
      → Keeps
          (sent_commands halves 1 sents)
          (AreInstants bound)
          (consume_command part)
          (IsBenched bound)
  consume_command-Keeps s p h = record {
    step = λ tick x before after c t e b.
        consume_command-IsBenched laws bound part tick x before c t
          (sent_commands-IsBenchCommand halves bound 1 sents before x after s e) p
          (grind (
            arith,
            length-sent_commands halves 1 sents,
            prefix_product bound (sent_commands halves 1 sents) before x after e,
          ))
          b;
  }

  pub start-IsBenched :
      (tracker : LatencyTracker)
      → IsBenched bound [] (record { exchange = empty_exchange {P = P}; tracker = reset tracker })
  unfolding reset dispatch_all
  start-IsBenched tracker = record {
    ready = empty_exchange-IsReady laws 1;
    quiet = empty_exchange-IsQuiet P;
    replays = refl;
    consistent = fresh-IsConsistent;
    within = Within-≡ 0 (0 * bound) fresh (omega arith) fresh-Within;
    samples = refl;
  }

  module _ {Q : Type 0} {queue : Queue (Command P) Q} {holds : Q → List (Command P) → Type 0}
      (fifo : IsFifo queue holds) (q : Q) (empty : holds q []) (tracker : LatencyTracker)
      (turns : List (Turn Instants)) (times : IsTimed bound sents turns) where
    -- Whatever the schedule of the two threads, the queue (if it is first in, first out) and the part of
    -- the benchmark, a run from the start returns: no call is undefined, runs out of fuel or overflows,
    -- while the clock readings are in [0, bound) and `bound` times the number of orders is below 2^63.
    -- The consumer has carried out a prefix of the orders, in order and each once; the next ones are in
    -- the queue, and the rest waits. The exchange is the one that this prefix leaves of the empty
    -- exchange; it is valid, its orders are live and no book is crossed; the tracker is consistent and
    -- has one sample for each order of the prefix.
    -- The order of the prices is `IsOrdered`.
    pub run_benchmark-Carried :
        Returns
          (Carried holds (sent_commands halves 1 sents) (IsBenched bound))
          (run_benchmark part queue (length sents) turns (bench_start halves sents q tracker))
    unfolding run_benchmark
    run_benchmark-Carried =
        run-Carried fifo (more_orders (length sents))
          (consume_command-Keeps times.sent times.positive times.sums) turns
          (bench_start halves sents q tracker) times.ticks
          (ready-Carried (sent_commands halves 1 sents) (IsBenched bound) q _ empty
            (start-IsBenched tracker))

    -- The benchmark ends under every fair schedule: where the schedule has as many rounds (a turn of the
    -- pushing thread, and later one of the consumer) as there are orders, in whatever order and however
    -- often the queue is found full or empty, the run returns with the test of the consumer's loop false,
    -- so that the join returns, all orders carried out and the promises of a run kept. All clock readings
    -- are in [0, bound), and `bound` times the number of orders is below 2^63.
    -- The order of the prices is `IsOrdered`.
    pub run_benchmark-fair :
        All (GoingOk (AreInstants bound)) turns
        → length sents ≤ rounds false turns
        → Returns
            (λ (s : Relay (Command P) Q (BenchState P)).
              (more_orders (length sents) s.running s.processed ≡ false)
              × (s.processed ≡ length sents)
              × IsBenched bound (sent_commands halves 1 sents) s.worker)
            (run_benchmark part queue (length sents) turns (bench_start halves sents q tracker))
    unfolding run_benchmark
    run_benchmark-fair going enough =
        let n = length-sent_commands halves 1 sents in
        Returns-map _ _
          (run_benchmark part queue (length sents) turns (bench_start halves sents q tracker))
          (run-fair fifo (more_orders (length sents))
            (consume_command-Keeps times.sent times.positive times.sums) true turns
            (bench_start halves sents q tracker) (λ k l. ground arith) going refl
            (ready-Carried (sent_commands halves 1 sents) (IsBenched bound) q _ empty
              (start-IsBenched tracker))
            (omega arith))
          (λ s h.
            let all = h.0 ∙ n in
            (ground (arith, all), all, subst (λ l. IsBenched bound l s.worker) (sym h.1) h.2))

    module _ (r : Relay (Command P) Q (BenchState P))
        (returns : run_benchmark part queue
            (length sents)
            turns
            (bench_start halves sents q tracker)
          ≡ ok r) where
      pub run_benchmark-Returned : Carried holds (sent_commands halves 1 sents) (IsBenched bound) r
      run_benchmark-Returned =
          Returns-ok (Carried holds (sent_commands halves 1 sents) (IsBenched bound)) r
            run_benchmark-Carried returns

      -- A consumer that has left its loop leaves what the orders leave of the empty exchange.
      pub run_benchmark-Leaves :
          r.processed ≡ length sents
          → Leaves r.worker.exchange (dispatch_all (sent_commands halves 1 sents) empty_exchange)
      run_benchmark-Leaves e =
          let c = run_benchmark-Returned in
          subst (λ l. Leaves r.worker.exchange (dispatch_all l empty_exchange))
            (finished_all r c (e ∙ sym (length-sent_commands halves 1 sents))) c.kept.replays

-- The queue makes no difference to the trades: two runs of the benchmark on as many orders, each on a
-- queue of its own that is first in, first out, under schedules, clock readings and parts of their own,
-- whose consumers have both left their loops, leave the same exchange. All clock readings are in
-- [0, bound), and `bound` times the number of orders is below 2^63.
-- The order of the prices is `IsOrdered`.
pub run_benchmark-same_exchange :
    {P Q Q' : Type 0} ⦃d : Price P⦄ (laws : IsOrdered P) (halves : ℕ → P) (bound : ℕ)
    {queue : Queue (Command P) Q} {queue' : Queue (Command P) Q'}
    {holds : Q → List (Command P) → Type 0} {holds' : Q' → List (Command P) → Type 0}
    (fifo : IsFifo queue holds) (fifo' : IsFifo queue' holds') (q : Q) (q' : Q')
    (empty : holds q []) (empty' : holds' q' []) (tracker tracker' : LatencyTracker)
    (part part' : Part) (sents sents' : List Sent) (turns turns' : List (Turn Instants))
    (times : IsTimed bound sents turns) (times' : IsTimed bound sents' turns')
    (r : Relay (Command P) Q (BenchState P)) (r' : Relay (Command P) Q' (BenchState P))
    → run_benchmark part queue (length sents) turns (bench_start halves sents q tracker) ≡ ok r
    → run_benchmark part' queue' (length sents') turns' (bench_start halves sents' q' tracker')
      ≡ ok r'
    → length sents ≡ length sents'
    → r.processed ≡ length sents
    → r'.processed ≡ length sents'
    → r.worker.exchange ≡ r'.worker.exchange
run_benchmark-same_exchange laws halves bound fifo fifo' q q' empty empty' tracker tracker' part
      part' sents sents' turns turns' times times' r r' returns returns' same done done' =
    let at =
      run_benchmark-Leaves laws halves bound sents part fifo q empty tracker turns times r returns
        done in
    let at' =
      run_benchmark-Leaves laws halves bound sents' part' fifo' q' empty' tracker' turns' times' r'
        returns' done' in
    Leaves-unique (dispatch_all (sent_commands halves 1 sents') empty_exchange) r.worker.exchange
      r'.worker.exchange
      (subst (Leaves r.worker.exchange)
        (dispatch_all-stamps halves 1 sents sents' empty_exchange same) at)
      at'
