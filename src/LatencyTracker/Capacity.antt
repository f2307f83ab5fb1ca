-- ===== src/LatencyTracker/Capacity.antt =====
-- Commands recorded one after the other, and `printStats` after them.
use order_matching_engine.Base.{
  ℕ, map, ◌≡◌, refl, ap, ◌∙◌, sym, ◌++◌, append_assoc, append-nil, ◌-◌, true, none, some, inl, inr,
  Bool-cases, suc, ◌+◌, ◌*◌, ◌^◌, ◌<◌, Option, List, [], ◌∷◌, arith, length, All,
}
use order_matching_engine.Base.Exec.{
  Exec, ok, ◌>>=◌, Returns, Returns->>=, Returns-map, Returns-both,
}
use order_matching_engine.Base.Int.{ℤ, pos, ◌+ℤ◌, is_zero}
use order_matching_engine.LatencyTracker.Sort.{total, smallest, largest}
use order_matching_engine.Order.{Command}
use order_matching_engine.LatencyTracker.{
  LatencyTracker, fresh, record_command, Percent, StatsReport, print_stats, report_stats,
}
use order_matching_engine.LatencyTracker.Stats.{print_stats-IsConsistent}
use order_matching_engine.LatencyTracker.Totals.{
  IsConsistent, fresh-IsConsistent, segments_of, Recorded, Fits,
}
use order_matching_engine.LatencyTracker.Bounds.{
  IsStamped, Within, Within-≡, fresh-Within, record_command-bounded, sum_of_times,
}

-- `record` of each command in turn.
unfoldable pub record_all : {P : Type 0} → List (Command P) → LatencyTracker → Exec LatencyTracker
record_all [] t = ok t
record_all (cmd ∷ cmds) t = record_command cmd t >>= λ t'. record_all cmds t'

-- The end-to-end latencies of the commands.
abbrev pub latencies : {P : Type 0} → List (Command P) → List ℤ
latencies cmds = map (λ cmd. (segments_of cmd).e2e_lat) cmds

-- The tracker is that of these latencies.
pub record IsOf (xs : List ℤ) (t : LatencyTracker) : Type 0 where
  pub consistent : IsConsistent t
  pub count : t.total_count ≡ pos (length xs)
  pub least : t.min_e2e ≡ smallest (pos (2 ^ 63 - 1)) xs
  pub greatest : t.max_e2e ≡ largest (pos 0) xs
  pub sum : t.sum_e2e ≡ total (pos 0) xs

-- The report has the number of the latencies and their extremes, and there is one if they are not none.
abbrev pub Shows : List ℤ → Option StatsReport → Type 0
Shows xs none = xs ≡ []
Shows xs (some p) =
    (p.orders_processed ≡ pos (length xs))
    × (p.min_value ≡ smallest (pos (2 ^ 63 - 1)) xs)
    × (p.max_value ≡ largest (pos 0) xs)

samples-IsOf : (xs : List ℤ) (t : LatencyTracker) → t.e2e_samples ≡ xs → IsConsistent t → IsOf xs t
samples-IsOf xs t e c = record {
  consistent = c;
  count = c.e2e_count ∙ ap (λ l. pos (length l)) e;
  least = c.min_value ∙ ap (smallest (pos (2 ^ 63 - 1))) e;
  greatest = c.max_value ∙ ap (largest (pos 0)) e;
  sum = c.sum ∙ ap (total (pos 0)) e;
}

none_counted : (xs : List ℤ) (c : ℤ) → is_zero c ≡ true → c ≡ pos (length xs) → xs ≡ []
none_counted [] c z e = refl
none_counted (x ∷ xs) c z e = absurd (ground (arith, z, e))

-- `printStats` keeps count, extremes and sum.
abbrev Stays : List ℤ → Option StatsReport × LatencyTracker → Type 0
Stays xs r =
    Shows xs r.0
    × (r.1.total_count ≡ pos (length xs))
    × (r.1.min_e2e ≡ smallest (pos (2 ^ 63 - 1)) xs)
    × (r.1.max_e2e ≡ largest (pos 0) xs)
    × (r.1.sum_e2e ≡ total (pos 0) xs)

print_stats-Stays :
    (rank : Percent → ℕ → ℕ) (xs : List ℤ) (t : LatencyTracker)
    → IsOf xs t
    → Fits (t.time_network +ℤ t.time_queue)
    → Fits ((t.time_network +ℤ t.time_queue) +ℤ t.time_orderbook)
    → Returns (Stays xs) (print_stats rank t)
unfolding print_stats report_stats
print_stats-Stays rank xs t o p q = elim (Bool-cases (is_zero t.total_count)) [
  | inl none_yet ↦
      rw none_yet
        (none_counted xs t.total_count none_yet o.count, o.count, o.least, o.greatest, o.sum)
  | inr some_yet ↦
      rw (some_yet, p, q) ((o.count, o.least, o.greatest), o.count, o.least, o.greatest, o.sum)
]

module _ {P : Type 0} (bound : ℕ) where
  record_all-Within :
      (cmds : List (Command P)) (m : ℕ) (t : LatencyTracker)
      → IsConsistent t
      → Within m t
      → All (IsStamped bound) cmds
      → 0 < bound
      → m + length cmds * bound < 2 ^ 63
      → Returns
          (λ t'.
            IsConsistent t'
            × Within (m + length cmds * bound) t'
            × (t'.e2e_samples ≡ t.e2e_samples ++ latencies cmds))
          (record_all cmds t)
  unfolding record_all
  record_all-Within [] m t c w s b h =
      (c, Within-≡ m (m + 0 * bound) t (omega arith) w, sym (append-nil t.e2e_samples))
  record_all-Within (cmd ∷ cmds) m t c w s b h =
      Returns->>= (λ t'. Recorded (segments_of cmd) t t' × Within (m + bound) t') _
        (record_command cmd t) _ (record_command-bounded bound m cmd t c w s.0 b (omega arith))
        (λ t' r.
          Returns-map _ _ (record_all cmds t')
            (record_all-Within cmds (m + bound) t' r.0.consistent r.1 s.1 b (omega arith))
            (λ u i. (
              i.0,
              Within-≡ (m + bound + length cmds * bound) (m + suc (length cmds) * bound) u
                  (omega arith) i.1,
              i.2
                  ∙ ap (λ l. l ++ latencies cmds) r.0.e2e
                  ∙ append_assoc t.e2e_samples ((segments_of cmd).e2e_lat ∷ []) (latencies cmds),
            )))

  -- On the fresh tracker, `record` of `n` commands whose stamps are in [0, bound), and `printStats` after
  -- them, never overflow `int64_t`, as long as `3 * n * bound` is below 2^63. The tracker that they leave
  -- is consistent with its samples; its count is `n`, its sum is that of the end-to-end latencies of the
  -- commands, its minimum the smallest of these and 2^63 - 1, and its maximum the largest of these and 0.
  -- The report shows `n`, that minimum and that maximum; there is none only if `n` is 0.
  pub record_all-print_stats :
      (rank : Percent → ℕ → ℕ) (cmds : List (Command P))
      → All (IsStamped bound) cmds
      → 0 < bound
      → 3 * (length cmds * bound) < 2 ^ 63
      → Returns
          (λ (r : Option StatsReport × LatencyTracker).
            Shows (latencies cmds) r.0 × IsOf (latencies cmds) r.1)
          (record_all cmds fresh >>= print_stats rank)
  record_all-print_stats rank cmds s b h =
      Returns->>=
        (λ t.
          IsConsistent t × Within (0 + length cmds * bound) t × (t.e2e_samples ≡ latencies cmds))
        _ (record_all cmds fresh) _
        (record_all-Within cmds 0 fresh fresh-IsConsistent fresh-Within s b (omega arith))
        (λ t w.
          let f = sum_of_times (0 + length cmds * bound) t w.1 (omega arith) in
          let o = samples-IsOf (latencies cmds) t w.2 w.0 in
          Returns-map _ _ (print_stats rank t)
            (Returns-both _ _ (print_stats rank t) (print_stats-IsConsistent rank t w.0 f.0 f.1)
              (print_stats-Stays rank (latencies cmds) t o f.0 f.1))
            (λ r k. (
              k.1.0,
              record {
                consistent = k.0;
                count = k.1.1;
                least = k.1.2;
                greatest = k.1.3;
                sum = k.1.4;
              },
            )))
