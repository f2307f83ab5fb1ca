-- ===== src/Benchmark/Comparison.antt =====
-- The figures of part 4 of benchmark.cpp: both queues side by side.
use order_matching_engine.Base.{
  ℕ, suc, ◌+◌, ◌*◌, ◌^◌, ◌<◌, ◌≤◌, ◌≡◌, refl, subst, inl, inr, Option, none, some, List, [], length,
  if◌then◌else◌, arith, Bool-cases,
}
use native.Mathlib.Nat.{div-le_self}
use order_matching_engine.Base.Exec.{Exec, ok, ◌>>=◌, Returns, Returns->>=}
use order_matching_engine.Base.Int.{ℤ, pos, negsuc, ◌-ℤ◌, ltb_ℤ, checked, int64_limit}
use order_matching_engine.Order.{Price, IsOrdered, Command}
use order_matching_engine.SpscQueue.{SpscQueue}
use order_matching_engine.SpscQueue.Ring.{Holds}
use order_matching_engine.MutexQueue.{MutexQueue}
use order_matching_engine.Queue.Implementations.{spsc_queue-IsFifo, mutex_queue-IsFifo}
use order_matching_engine.LatencyTracker.{
  LatencyTracker, fresh, Percent, p50, p99, div_ℤ, get_avg_e2e, get_percentile_e2e,
}
use order_matching_engine.LatencyTracker.Bounds.{magnitude, Within}
use order_matching_engine.Relay.{Turn, Relay}
use order_matching_engine.Server.Engine.{Instants}
use order_matching_engine.Benchmark.{Sent, comparison, BenchState, sent_commands}
use order_matching_engine.Benchmark.Orders.{length-sent_commands}
use order_matching_engine.Benchmark.Joined.{IsFair, joined_run-IsBenched}
use order_matching_engine.Benchmark.Parts.{ring_slots, ring_run, locked_run, compare_queues}
use order_matching_engine.Benchmark.Step.{IsBenched}

-- What part 4 prints of the two runs, in nanoseconds: average, median and 99th percentile.
record Figures : Type 0 where
  pub average : ℤ
  pub p50_e2e : ℤ
  pub p99_e2e : ℤ

-- The getters sort the samples in place.
abbrev figures : (Percent → ℕ → ℕ) → LatencyTracker → Figures × LatencyTracker
figures rank t =
    let e2e50 = get_percentile_e2e rank p50 t in
    let e2e99 = get_percentile_e2e rank p99 e2e50.1 in
    (record { average = get_avg_e2e t; p50_e2e = e2e50.0; p99_e2e = e2e99.0 }, e2e99.1)

-- `lImprove`: the numerator and the denominator of the quotient, if there is one.
abbrev latency_gain : LatencyTracker → LatencyTracker → Exec (Option (ℤ × ℤ))
latency_gain ring locked =
    if ltb_ℤ (pos 0) (get_avg_e2e locked)
    then (do
      n ← checked int64_limit (get_avg_e2e locked -ℤ get_avg_e2e ring)
      ok (some (n, get_avg_e2e locked)))
    else ok none

module _ {P : Type 0} ⦃d : Price P⦄ (halves : ℕ → P) where
  -- Part 4 with what it prints.
  unfoldable comparison_figures :
      (Percent → ℕ → ℕ)
      → List Sent
      → List Sent
      → List (Turn Instants)
      → List (Turn Instants)
      → SpscQueue (Command P)
      → Exec (Figures × Figures × Option (ℤ × ℤ))
  comparison_figures rank sents sents' turns turns' q = do
    t ← compare_queues halves sents sents' turns turns' q
    gain ← latency_gain t.0 t.1
    ok ((figures rank t.0).0, (figures rank t.1).0, gain)

magnitude_div : (a : ℤ) (n : ℕ) → magnitude (div_ℤ a (pos n)) ≤ magnitude a
magnitude_div (pos a) n = omega (arith, div-le_self a n)
magnitude_div (negsuc a) n = let h = div-le_self (suc a) n in ground arith

average_bounded : (m : ℕ) (t : LatencyTracker) → Within m t → magnitude (get_avg_e2e t) ≤ m
unfolding get_avg_e2e
average_bounded m t w = by_count t.total_count
  where
    by_count : (c : ℤ) → magnitude (if ltb_ℤ (pos 0) c then div_ℤ t.sum_e2e c else pos 0) ≤ m
    by_count (pos n) = elim (Bool-cases (ltb_ℤ (pos 0) (pos n))) [
      | inl some_yet ↦ rw some_yet (omega (arith, magnitude_div t.sum_e2e n, w.e2e))
      | inr none_yet ↦ rw none_yet (omega arith)
    ]
    by_count (negsuc n) = ground arith

fits_difference :
    (a b : ℤ) → magnitude a + magnitude b < 2 ^ 63 → checked int64_limit (a -ℤ b) ≡ ok (a -ℤ b)
fits_difference (pos a) (pos b) h = ground arith
fits_difference (pos a) (negsuc b) h = ground arith
fits_difference (negsuc a) (pos b) h = ground arith
fits_difference (negsuc a) (negsuc b) h = ground arith

latency_gain-Returns :
    (m n : ℕ) (ring locked : LatencyTracker)
    → Within m ring
    → Within n locked
    → m + n < 2 ^ 63
    → Returns (λ g. Unit) (latency_gain ring locked)
latency_gain-Returns m n ring locked v w h =
    let a = average_bounded m ring v in
    let b = average_bounded n locked w in
    elim (Bool-cases (ltb_ℤ (pos 0) (get_avg_e2e locked))) [
      | inl positive ↦
          rw (positive, fits_difference (get_avg_e2e locked) (get_avg_e2e ring) (omega arith)) tt
      | inr other ↦ rw other tt
    ]

module _ {P : Type 0} ⦃d : Price P⦄ (laws : IsOrdered P) (halves : ℕ → P) (bound : ℕ) where
  -- Part 4 ends: under fair schedules both runs end, and the difference of the averages is a 64-bit
  -- number. All clock readings are in [0, bound), and `bound` times the number of all orders of both
  -- runs is below 2^63. The order of the prices is `IsOrdered`.
  comparison_figures-Returns :
      (rank : Percent → ℕ → ℕ) (sents sents' : List Sent) (turns turns' : List (Turn Instants))
      (q : SpscQueue (Command P))
      → Holds ring_slots q []
      → IsFair bound sents turns
      → IsFair bound sents' turns'
      → length sents * bound + length sents' * bound < 2 ^ 63
      → Returns (λ r. Unit) (comparison_figures halves rank sents sents' turns turns' q)
  unfolding comparison_figures
  comparison_figures-Returns rank sents sents' turns turns' q empty f f' h =
      Returns->>=
        (λ (t : LatencyTracker × LatencyTracker).
          Within (length sents * bound) t.0 × Within (length sents' * bound) t.1)
        _ (compare_queues halves sents sents' turns turns' q) _
        (Returns->>=
          (λ (r : Relay (Command P) (SpscQueue (Command P)) (BenchState P)).
            IsBenched bound (sent_commands halves 1 sents) r.worker)
          _ (ring_run halves sents turns q) _
          (joined_run-IsBenched laws halves bound sents comparison
            (spsc_queue-IsFifo ring_slots (omega arith)) q empty fresh turns f)
          (λ r b.
            Returns->>=
              (λ (r' : Relay (Command P) (MutexQueue (Command P)) (BenchState P)).
                IsBenched bound (sent_commands halves 1 sents') r'.worker)
              _ (locked_run halves sents' turns') _
              (joined_run-IsBenched laws halves bound sents' comparison mutex_queue-IsFifo
                (record { items = [] }) refl fresh turns' f')
              (λ r' b'. (
                subst (λ n. Within (n * bound) r.worker.tracker)
                    (length-sent_commands halves 1 sents) b.within,
                subst (λ n. Within (n * bound) r'.worker.tracker)
                    (length-sent_commands halves 1 sents') b'.within,
              ))))
        (λ t w.
          Returns->>= (λ (g : Option (ℤ × ℤ)). Unit) _ (latency_gain t.0 t.1) _
            (latency_gain-Returns (length sents * bound) (length sents' * bound) t.0 t.1 w.0 w.1 h)
            (λ g u. tt))
