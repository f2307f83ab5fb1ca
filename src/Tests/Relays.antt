-- ===== src/Tests/Relays.antt =====
-- The theorems of the benchmark's and the server's threads, on two orders.
use order_matching_engine.Base.{false, All, ℕ, ◌≡◌, refl, List, [], ◌∷◌, arith, nat_key}
use order_matching_engine.Base.Exec.{Exec, ok, undefined, out_of_fuel, Returns, Returns-map}
use order_matching_engine.Base.Int.{pos}
use order_matching_engine.Order.{Command}
use order_matching_engine.LatencyTracker.{fresh}
use order_matching_engine.Queue.{Queue, IsFifo}
use order_matching_engine.Queue.Implementations.{spsc_queue, spsc_queue-IsFifo, mutex_queue-IsFifo}
use order_matching_engine.SpscQueue
use order_matching_engine.SpscQueue.{SpscQueue}
use order_matching_engine.SpscQueue.Ring.{Holds}
use order_matching_engine.SpscQueue.Fifo.{fresh-Holds}
use order_matching_engine.MutexQueue.{MutexQueue}
use order_matching_engine.Relay.{Turn, produce, consume, Relay}
use order_matching_engine.Relay.Carry.{Carried}
use order_matching_engine.Relay.Fair.{GoingOk}
use order_matching_engine.Server.Threads.Kept.{AreInstants}
use order_matching_engine.Server.Engine.{Instants}
use order_matching_engine.Benchmark.{
  Sent, Part, throughput, comparison, BenchState, make_command, sent_commands, more_orders,
  bench_start, run_benchmark,
}
use order_matching_engine.Benchmark.Step.{IsBenched}
use order_matching_engine.Benchmark.Runs.{
  IsTimed, run_benchmark-Carried, run_benchmark-fair, run_benchmark-same_exchange,
}
use order_matching_engine.Tests.Orders.{nat_price, nat_laws}

abbrev pub tick : Instants
tick = record { popped = pos 5; started_at = pos 6; completed = pos 7 }

abbrev two_sent : List Sent
two_sent = record { recv = pos 1; push = pos 2 } ∷ record { recv = pos 3; push = pos 4 } ∷ []

-- Each order is carried out right after its push.
abbrev pub two_rounds : List (Turn Instants)
two_rounds = produce ∷ consume tick ∷ produce ∷ consume tick ∷ []

two_sent-IsTimed : IsTimed 100 two_sent two_rounds
two_sent-IsTimed = record {
  sent = (
    ((refl, omega arith), (refl, omega arith)),
    (((refl, omega arith), (refl, omega arith)), tt),
  );
  ticks = (
    tt,
    (
      ((refl, omega arith), (refl, omega arith), (refl, omega arith)),
      (tt, (((refl, omega arith), (refl, omega arith), (refl, omega arith)), tt)),
    ),
  );
  positive = omega arith;
  sums = omega arith;
}

pub two_rounds-GoingOk : All (GoingOk (AreInstants 100)) two_rounds
two_rounds-GoingOk = (
  tt,
  (
    ((refl, omega arith), (refl, omega arith), (refl, omega arith)),
    (tt, (((refl, omega arith), (refl, omega arith), (refl, omega arith)), tt)),
  ),
)

-- Half prices as natural numbers.
abbrev halves : ℕ → ℕ
halves n = n

abbrev slots : List (Command ℕ)
slots = make_command halves 0 ∷ make_command halves 0 ∷ make_command halves 0 ∷ []

abbrev empty_ring : SpscQueue (Command ℕ)
empty_ring = SpscQueue.fresh slots

empty_ring-Holds : Holds 3 empty_ring []
empty_ring-Holds = fresh-Holds 3 slots (omega arith) (omega arith) refl

ring-IsFifo : IsFifo (spsc_queue {A = Command ℕ} 3) (Holds 3)
ring-IsFifo = spsc_queue-IsFifo 3 (omega arith)

abbrev empty_list : MutexQueue (Command ℕ)
empty_list = record { items = [] }

run_benchmark-Carried_example :
    Returns (Carried (Holds 3) (sent_commands halves 1 two_sent) (IsBenched 100)) (
      run_benchmark throughput
        (spsc_queue 3)
        2
        two_rounds
        (bench_start halves two_sent empty_ring fresh))
run_benchmark-Carried_example =
    run_benchmark-Carried nat_laws halves 100 two_sent throughput ring-IsFifo empty_ring
      empty_ring-Holds fresh two_rounds two_sent-IsTimed

-- The value of a call that returns.
value : {A : Type 0} (Q : A → Type 0) (m : Exec A) → Returns Q m → (a : A) × (m ≡ ok a) × Q a
value Q (ok a) h = (a, refl, h)
value Q undefined h = absurd h
value Q out_of_fuel h = absurd h

-- Two rounds finish two orders.
module _ {Q : Type 0} {queue : Queue (Command ℕ) Q} {holds : Q → List (Command ℕ) → Type 0}
    (fifo : IsFifo queue holds) (q : Q) (empty : holds q []) (part : Part) where
  two_rounds-Returns :
      Returns
        (λ (r : Relay (Command ℕ) Q (BenchState ℕ)). r.processed ≡ 2)
        (run_benchmark part queue 2 two_rounds (bench_start halves two_sent q fresh))
  two_rounds-Returns =
      Returns-map _ _ (run_benchmark part queue 2 two_rounds (bench_start halves two_sent q fresh))
        (run_benchmark-fair nat_laws halves 100 two_sent part fifo q empty fresh two_rounds
          two_sent-IsTimed two_rounds-GoingOk (omega arith))
        (λ s h. h.1)

  -- The state after two rounds.
  two_rounds_state :
      (r : Relay (Command ℕ) Q (BenchState ℕ)) × (run_benchmark part queue 2 two_rounds
          (bench_start halves two_sent q fresh)
        ≡ ok r)
      × (r.processed ≡ 2)
  two_rounds_state = value (λ r. r.processed ≡ 2) _ two_rounds-Returns

run_benchmark-fair_example :
    Returns
      (λ (s : Relay (Command ℕ) (SpscQueue (Command ℕ)) (BenchState ℕ)).
        (more_orders 2 s.running s.processed ≡ false)
        × (s.processed ≡ 2)
        × IsBenched 100 (sent_commands halves 1 two_sent) s.worker)
      (run_benchmark throughput
        (spsc_queue 3)
        2
        two_rounds
        (bench_start halves two_sent empty_ring fresh))
run_benchmark-fair_example =
    run_benchmark-fair nat_laws halves 100 two_sent throughput ring-IsFifo empty_ring
      empty_ring-Holds fresh two_rounds two_sent-IsTimed two_rounds-GoingOk (omega arith)

run_benchmark-same_exchange_example :
    let s = two_rounds_state ring-IsFifo empty_ring empty_ring-Holds comparison in
    let t = two_rounds_state mutex_queue-IsFifo empty_list refl comparison in
    s.0.worker.exchange ≡ t.0.worker.exchange
run_benchmark-same_exchange_example =
    run_benchmark-same_exchange nat_laws halves 100 ring-IsFifo mutex_queue-IsFifo empty_ring
      empty_list empty_ring-Holds refl fresh fresh comparison comparison two_sent two_sent
      two_rounds two_rounds two_sent-IsTimed two_sent-IsTimed
      (two_rounds_state ring-IsFifo empty_ring empty_ring-Holds comparison).0
      (two_rounds_state mutex_queue-IsFifo empty_list refl comparison).0
      (two_rounds_state ring-IsFifo empty_ring empty_ring-Holds comparison).1
      (two_rounds_state mutex_queue-IsFifo empty_list refl comparison).1 refl
      (two_rounds_state ring-IsFifo empty_ring empty_ring-Holds comparison).2
      (two_rounds_state mutex_queue-IsFifo empty_list refl comparison).2
