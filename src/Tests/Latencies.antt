-- ===== src/Tests/Latencies.antt =====
-- The theorems of the latency tracker, on one timed command.
use order_matching_engine.Base.{ℕ, Option, refl, [], ◌∷◌, arith}
use order_matching_engine.Base.Exec.{◌>>=◌, Returns}
use order_matching_engine.Base.Int.{pos}
use order_matching_engine.Order.{Command, buy, new}
use order_matching_engine.LatencyTracker.{
  LatencyTracker, StatsReport, fresh, percentile, record_command, print_stats,
}
use order_matching_engine.LatencyTracker.Bounds.{IsStamped}
use order_matching_engine.LatencyTracker.Capacity.{Shows, IsOf, record_all, record_all-print_stats}
use order_matching_engine.LatencyTracker.Percentiles.{NearestRank, percentile-NearestRank}
use order_matching_engine.LatencyTracker.Totals.{
  IsConsistent, segments_of, StampsFit, SumsFit, Recorded, record_command-Recorded,
}

abbrev timed : Command ℕ
timed = record {
  type = new;
  order_id = 1;
  side = buy;
  price = 100;
  quantity = pos 10;
  timestamp = pos 1;
  symbol = [];
  ts_network_recv = pos 10;
  ts_queue_push = pos 12;
  ts_queue_pop = pos 17;
  ts_process_start = pos 18;
  ts_match_complete = pos 30;
}

-- A tracker that has recorded one command.
abbrev one_sample : LatencyTracker
one_sample = record {
  e2e_samples = pos 20 ∷ [];
  queue_samples = pos 5 ∷ [];
  match_samples = pos 12 ∷ [];
  network_samples = pos 2 ∷ [];
  total_count = pos 1;
  min_e2e = pos 20;
  max_e2e = pos 20;
  sum_e2e = pos 20;
  time_network = pos 2;
  time_queue = pos 5;
  time_orderbook = pos 12;
}

one_sample-IsConsistent : IsConsistent one_sample
one_sample-IsConsistent = record {
  e2e_count = refl;
  queue_count = refl;
  match_count = refl;
  network_count = refl;
  least = (refl, tt);
  greatest = (refl, tt);
  min_value = refl;
  max_value = refl;
  sum = refl;
  network_time = refl;
  queue_time = refl;
  match_time = refl;
}

timed-StampsFit : StampsFit timed
timed-StampsFit = record { network = refl; queue = refl; matching = refl; e2e = refl }

timed-SumsFit : SumsFit (segments_of timed) one_sample
timed-SumsFit = record { count = refl; e2e = refl; network = refl; queue = refl; matching = refl }

record_command-Recorded_example :
    Returns (Recorded (segments_of timed) one_sample) (record_command timed one_sample)
record_command-Recorded_example =
    record_command-Recorded timed one_sample one_sample-IsConsistent timed-StampsFit timed-SumsFit

-- The median of three samples has rank 2.
percentile-NearestRank_example :
    NearestRank 2
      (pos 30 ∷ pos 10 ∷ pos 20 ∷ [])
      (percentile (λ n. 2) (pos 30 ∷ pos 10 ∷ pos 20 ∷ []))
percentile-NearestRank_example =
    percentile-NearestRank (λ n. 2) (pos 30 ∷ pos 10 ∷ pos 20 ∷ []) (omega arith) (omega arith)
      (omega arith)

timed-IsStamped : IsStamped 100 timed
timed-IsStamped = record {
  network_recv = (refl, omega arith);
  queue_push = (refl, omega arith);
  queue_pop = (refl, omega arith);
  process_start = (refl, omega arith);
  match_complete = (refl, omega arith);
}

record_all-print_stats_example :
    Returns
      (λ (r : Option StatsReport × LatencyTracker).
        Shows (pos 20 ∷ pos 20 ∷ []) r.0 × IsOf (pos 20 ∷ pos 20 ∷ []) r.1)
      (record_all (timed ∷ timed ∷ []) fresh >>= print_stats (λ p n. n))
record_all-print_stats_example =
    record_all-print_stats 100 (λ p n. n) (timed ∷ timed ∷ [])
      (timed-IsStamped, (timed-IsStamped, tt)) (omega arith) (omega arith)
