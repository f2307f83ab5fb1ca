-- ===== src/LatencyTracker.antt =====
-- `class LatencyTracker` of latency_tracker.h. An `int64_t` that overflows is undefined behaviour. The
-- ranks `ceil(p * n)` of the percentiles are computed on `double`s, and are a parameter.
pub mod Sort
pub mod Percentiles
pub mod Totals
pub mod Stats
pub mod Bounds
pub mod Capacity
use order_matching_engine.Base.{
  ℕ, suc, ◌+◌, ◌-◌, ◌/◌, ◌%◌, ◌^◌, Bool, Option, none, some, List, [], ◌∷◌, ◌++◌, ltb,
  if◌then◌else◌, length, get_or,
}
use order_matching_engine.Base.Exec.{Exec, ok, ◌>>=◌}
use order_matching_engine.Base.Int.{
  ℤ, pos, negsuc, ◌+ℤ◌, ◌-ℤ◌, ltb_ℤ, is_zero, int64_limit, checked,
}
use order_matching_engine.Order.{Command}

pub record LatencyTracker : Type 0 where
  pub e2e_samples : List ℤ
  pub queue_samples : List ℤ
  pub match_samples : List ℤ
  pub network_samples : List ℤ
  pub total_count : ℤ
  pub min_e2e : ℤ
  pub max_e2e : ℤ
  pub sum_e2e : ℤ
  pub time_network : ℤ
  pub time_queue : ℤ
  pub time_orderbook : ℤ

abbrev pub fresh : LatencyTracker
fresh = record {
  e2e_samples = [];
  queue_samples = [];
  match_samples = [];
  network_samples = [];
  total_count = pos 0;
  min_e2e = pos (int64_limit - 1);
  max_e2e = pos 0;
  sum_e2e = pos 0;
  time_network = pos 0;
  time_queue = pos 0;
  time_orderbook = pos 0;
}

-- `std::sort` of `int64_t` samples: the sorted sequence is unique.
abbrev pub insert_sorted : ℤ → List ℤ → List ℤ
insert_sorted x [] = x ∷ []
insert_sorted x (y ∷ ys) = if ltb_ℤ y x then y ∷ insert_sorted x ys else x ∷ y ∷ ys

abbrev pub sort : List ℤ → List ℤ
sort [] = []
sort (x ∷ xs) = insert_sorted x (sort xs)

-- `static_cast<size_t>(std::ceil(p * n)) - 1`, and the clamp to the last index.
abbrev pub index_of : ℕ → ℕ → ℕ
index_of rank n = let idx = (rank + 2 ^ 64 - 1) % 2 ^ 64 in if ltb idx n then idx else n - 1

-- The value, and the samples, which are sorted in place.
unfoldable pub percentile : (ℕ → ℕ) → List ℤ → ℤ × List ℤ
percentile rank [] = (pos 0, [])
percentile rank (x ∷ xs) =
    let samples = sort (x ∷ xs) in
    let n = length samples in (get_or samples (index_of (rank n) n) (pos 0), samples)

pub record Segments : Type 0 where
  pub net_lat : ℤ
  pub q_lat : ℤ
  pub match_lat : ℤ
  pub e2e_lat : ℤ

-- The four differences that `record` and `printOrderLatency` begin with.
unfoldable pub segments : {P : Type 0} → Command P → Exec Segments
segments cmd = do
  net_lat ← checked int64_limit (cmd.ts_queue_push -ℤ cmd.ts_network_recv)
  q_lat ← checked int64_limit (cmd.ts_queue_pop -ℤ cmd.ts_queue_push)
  match_lat ← checked int64_limit (cmd.ts_match_complete -ℤ cmd.ts_process_start)
  e2e_lat ← checked int64_limit (cmd.ts_match_complete -ℤ cmd.ts_network_recv)
  ok (record { net_lat = net_lat; q_lat = q_lat; match_lat = match_lat; e2e_lat = e2e_lat })

-- `record`, once the differences are taken.
unfoldable pub record_segments : Segments → LatencyTracker → Exec LatencyTracker
record_segments s t = do
  total_count ← checked int64_limit (t.total_count +ℤ pos 1)
  sum_e2e ← checked int64_limit (t.sum_e2e +ℤ s.e2e_lat)
  time_network ← checked int64_limit (t.time_network +ℤ s.net_lat)
  time_queue ← checked int64_limit (t.time_queue +ℤ s.q_lat)
  time_orderbook ← checked int64_limit (t.time_orderbook +ℤ s.match_lat)
  ok (record {
    e2e_samples = t.e2e_samples ++ s.e2e_lat ∷ [];
    queue_samples = t.queue_samples ++ s.q_lat ∷ [];
    match_samples = t.match_samples ++ s.match_lat ∷ [];
    network_samples = t.network_samples ++ s.net_lat ∷ [];
    total_count = total_count;
    min_e2e = if ltb_ℤ s.e2e_lat t.min_e2e then s.e2e_lat else t.min_e2e;
    max_e2e = if ltb_ℤ t.max_e2e s.e2e_lat then s.e2e_lat else t.max_e2e;
    sum_e2e = sum_e2e;
    time_network = time_network;
    time_queue = time_queue;
    time_orderbook = time_orderbook;
  })

unfoldable pub record_command : {P : Type 0} → Command P → LatencyTracker → Exec LatencyTracker
record_command cmd t = segments cmd >>= λ s. record_segments s t

-- What `printOrderLatency` prints: the id, the stamps and the differences.
pub record OrderLatency : Type 0 where
  pub order_id : ℕ
  pub network_receive : ℤ
  pub queue_push : ℤ
  pub queue_pop : ℤ
  pub process_start : ℤ
  pub match_complete : ℤ
  pub differences : Segments

unfoldable pub print_order_latency : {P : Type 0} → Command P → Exec OrderLatency
print_order_latency cmd = do
  differences ← segments cmd
  ok (record {
    order_id = cmd.order_id;
    network_receive = cmd.ts_network_recv;
    queue_push = cmd.ts_queue_push;
    queue_pop = cmd.ts_queue_pop;
    process_start = cmd.ts_process_start;
    match_complete = cmd.ts_match_complete;
    differences = differences;
  })

-- `int64_t` division by a positive count: towards zero.
abbrev pub div_ℤ : ℤ → ℤ → ℤ
div_ℤ (pos a) (pos n) = pos (a / n)
div_ℤ (negsuc a) (pos n) = pos 0 -ℤ pos (suc a / n)
div_ℤ a (negsuc n) = pos 0

-- The percentiles that the tracker prints.
pub data Percent : Type 0 where
  p50 p95 p99 : Percent

-- What `printStats` prints; `breakdown` has the three times and their total, whose ratios are printed.
pub record StatsReport : Type 0 where
  pub orders_processed : ℤ
  pub average : ℤ
  pub min_value : ℤ
  pub max_value : ℤ
  pub p50_e2e : ℤ
  pub p95_e2e : ℤ
  pub p99_e2e : ℤ
  pub p50_net : ℤ
  pub p99_net : ℤ
  pub p50_queue : ℤ
  pub p99_queue : ℤ
  pub p50_match : ℤ
  pub p99_match : ℤ
  pub breakdown : Option (ℤ × ℤ × ℤ × ℤ)

module _ (rank : Percent → ℕ → ℕ) where
  unfoldable pub report_stats : LatencyTracker → Exec (Option StatsReport × LatencyTracker)
  report_stats t = do
    let e2e50 = percentile (rank p50) t.e2e_samples
    let e2e95 = percentile (rank p95) e2e50.1
    let e2e99 = percentile (rank p99) e2e95.1
    let queue50 = percentile (rank p50) t.queue_samples
    let queue99 = percentile (rank p99) queue50.1
    let match50 = percentile (rank p50) t.match_samples
    let match99 = percentile (rank p99) match50.1
    let net50 = percentile (rank p50) t.network_samples
    let net99 = percentile (rank p99) net50.1
    two_times ← checked int64_limit (t.time_network +ℤ t.time_queue)
    total_time ← checked int64_limit (two_times +ℤ t.time_orderbook)
    let stats : StatsReport = record {
      orders_processed = t.total_count;
      average = div_ℤ t.sum_e2e t.total_count;
      min_value = t.min_e2e;
      max_value = t.max_e2e;
      p50_e2e = e2e50.0;
      p95_e2e = e2e95.0;
      p99_e2e = e2e99.0;
      p50_net = net50.0;
      p99_net = net99.0;
      p50_queue = queue50.0;
      p99_queue = queue99.0;
      p50_match = match50.0;
      p99_match = match99.0;
      breakdown =
          if ltb_ℤ (pos 0) total_time
          then some (t.time_network, t.time_queue, t.time_orderbook, total_time)
          else none;
    }
    ok (
      some stats,
      record t {
        e2e_samples = e2e99.1;
        queue_samples = queue99.1;
        match_samples = match99.1;
        network_samples = net99.1;
      },
    )

  -- `none` for the line that no orders have been processed.
  unfoldable pub print_stats : LatencyTracker → Exec (Option StatsReport × LatencyTracker)
  print_stats t = if is_zero t.total_count then ok (none, t) else report_stats t

-- `reset` assigns each field.
unfoldable pub reset : LatencyTracker → LatencyTracker
reset t = record t {
  e2e_samples = [];
  queue_samples = [];
  match_samples = [];
  network_samples = [];
  total_count = pos 0;
  min_e2e = pos (int64_limit - 1);
  max_e2e = pos 0;
  sum_e2e = pos 0;
  time_network = pos 0;
  time_queue = pos 0;
  time_orderbook = pos 0;
}

unfoldable pub get_avg_e2e : LatencyTracker → ℤ
get_avg_e2e t = if ltb_ℤ (pos 0) t.total_count then div_ℤ t.sum_e2e t.total_count else pos 0

abbrev pub get_count : LatencyTracker → ℤ
get_count t = t.total_count

abbrev pub get_min_e2e : LatencyTracker → ℤ
get_min_e2e t = t.min_e2e

abbrev pub get_max_e2e : LatencyTracker → ℤ
get_max_e2e t = t.max_e2e

-- `getP50E2E`, `getP95E2E` and `getP99E2E` sort the samples in place.
abbrev pub get_percentile_e2e : (Percent → ℕ → ℕ) → Percent → LatencyTracker → ℤ × LatencyTracker
get_percentile_e2e rank p t =
    let r = percentile (rank p) t.e2e_samples in (r.0, record t { e2e_samples = r.1 })
