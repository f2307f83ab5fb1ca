-- ===== src/LatencyTracker/Stats.antt =====
-- `printStats` on a consistent tracker: the samples that it sorts say the same.
use order_matching_engine.Base.{
  ℕ, ◌^◌, ◌-◌, ◌≡◌, refl, ap, ◌∙◌, sym, inl, inr, false, List, [], ◌∷◌, Bool-cases, length, All,
}
use order_matching_engine.Base.Exec.{Returns}
use order_matching_engine.Base.Int.{ℤ, pos, ◌+ℤ◌, ltb_ℤ, is_zero}
use order_matching_engine.LatencyTracker.{
  LatencyTracker, sort, percentile, Percent, p50, p95, p99, report_stats, print_stats,
}
use order_matching_engine.LatencyTracker.Totals.{IsConsistent, Fits}
use order_matching_engine.LatencyTracker.Sort.{
  total, total-sort, length-sort, All-sort, smallest, largest, smallest-sort, largest-sort,
}

percentile_sorts : (rank : ℕ → ℕ) (xs : List ℤ) → (percentile rank xs).1 ≡ sort xs
unfolding percentile
percentile_sorts rank [] = refl
percentile_sorts rank (x ∷ xs) = refl

-- As many samples, of the same sum and the same extremes.
abbrev Same : List ℤ → List ℤ → Type 0
Same xs ys =
    (length xs ≡ length ys)
    × (total (pos 0) xs ≡ total (pos 0) ys)
    × ((a : ℤ) → smallest a xs ≡ smallest a ys)
    × ((a : ℤ) → largest a xs ≡ largest a ys)

sorted_Same : (r : ℕ → ℕ) (xs ys : List ℤ) → Same xs ys → Same (percentile r xs).1 ys
sorted_Same r xs ys h = rw (percentile_sorts r xs) (
  length-sort xs ∙ h.0,
  total-sort (pos 0) xs ∙ h.1,
  λ a. smallest-sort a xs ∙ h.2 a,
  λ a. largest-sort a xs ∙ h.3 a,
)

itself : (xs : List ℤ) → Same xs xs
itself xs = (refl, refl, λ a. refl, λ a. refl)

sorted_All : (Q : ℤ → Type 0) (r : ℕ → ℕ) (xs : List ℤ) → All Q xs → All Q (percentile r xs).1
sorted_All Q r xs h = rw (percentile_sorts r xs) (All-sort Q xs h)

resampled-IsConsistent :
    (t : LatencyTracker) (e q m n : List ℤ)
    → IsConsistent t
    → Same e t.e2e_samples
    → Same q t.queue_samples
    → Same m t.match_samples
    → Same n t.network_samples
    → All (λ x. ltb_ℤ x t.min_e2e ≡ false) e
    → All (λ x. ltb_ℤ t.max_e2e x ≡ false) e
    → IsConsistent
        (record t { e2e_samples = e; queue_samples = q; match_samples = m; network_samples = n })
resampled-IsConsistent t e q m n c he hq hm hn l g = record {
  e2e_count = c.e2e_count ∙ ap pos (sym he.0);
  queue_count = c.queue_count ∙ ap pos (sym hq.0);
  match_count = c.match_count ∙ ap pos (sym hm.0);
  network_count = c.network_count ∙ ap pos (sym hn.0);
  least = l;
  greatest = g;
  min_value = c.min_value ∙ sym (he.2 (pos (2 ^ 63 - 1)));
  max_value = c.max_value ∙ sym (he.3 (pos 0));
  sum = c.sum ∙ sym he.1;
  network_time = c.network_time ∙ sym hn.1;
  queue_time = c.queue_time ∙ sym hq.1;
  match_time = c.match_time ∙ sym hm.1;
}

module _ (rank : Percent → ℕ → ℕ) where
  twice : (xs : List ℤ) → Same (percentile (rank p99) (percentile (rank p50) xs).1).1 xs
  twice xs = sorted_Same (rank p99) _ xs (sorted_Same (rank p50) xs xs (itself xs))

  thrice :
      (Q : ℤ → Type 0) (xs : List ℤ)
      → All Q xs
      → All Q (percentile (rank p99) (percentile (rank p95) (percentile (rank p50) xs).1).1).1
  thrice Q xs h =
      sorted_All Q (rank p99) _ (sorted_All Q (rank p95) _ (sorted_All Q (rank p50) xs h))

  report_stats-IsConsistent :
      (t : LatencyTracker)
      → IsConsistent t
      → Fits (t.time_network +ℤ t.time_queue)
      → Fits ((t.time_network +ℤ t.time_queue) +ℤ t.time_orderbook)
      → Returns (λ r. IsConsistent r.1) (report_stats rank t)
  unfolding report_stats
  report_stats-IsConsistent t c p q =
      rw (p, q)
        (resampled-IsConsistent t _ _ _ _ c
          (sorted_Same (rank p99) _ _
            (sorted_Same (rank p95) _ _ (sorted_Same (rank p50) _ _ (itself t.e2e_samples))))
          (twice t.queue_samples) (twice t.match_samples) (twice t.network_samples)
          (thrice _ t.e2e_samples c.least) (thrice _ t.e2e_samples c.greatest))

  -- `printStats` sorts the sample lists in place and leaves a consistent tracker consistent; it returns
  -- when the sum of the three cumulative times does not overflow.
  pub print_stats-IsConsistent :
      (t : LatencyTracker)
      → IsConsistent t
      → Fits (t.time_network +ℤ t.time_queue)
      → Fits ((t.time_network +ℤ t.time_queue) +ℤ t.time_orderbook)
      → Returns (λ r. IsConsistent r.1) (print_stats rank t)
  unfolding print_stats
  print_stats-IsConsistent t c p q = elim (Bool-cases (is_zero t.total_count)) [
    | inl none_yet ↦ rw none_yet c
    | inr some_yet ↦ rw some_yet (report_stats-IsConsistent t c p q)
  ]
