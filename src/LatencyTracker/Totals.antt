-- ===== src/LatencyTracker/Totals.antt =====
-- The aggregates of the tracker agree with its samples.
use order_matching_engine.Base.{
  ◌^◌, ◌-◌, ◌≡◌, refl, ap, ◌∙◌, sym, true, false, List, [], ◌∷◌, ◌++◌, arith, if◌then◌else◌, length,
  length-append, All, All-append, All-map,
}
use order_matching_engine.Base.Exec.{Returns}
use order_matching_engine.Base.Int.{ℤ, min_ℤ, pos, ◌+ℤ◌, ◌-ℤ◌, ltb_ℤ, fits, int64_limit}
use order_matching_engine.Order.{Command}
use order_matching_engine.LatencyTracker.{
  LatencyTracker, fresh, Segments, segments, record_segments, record_command, reset,
}
use order_matching_engine.LatencyTracker.Sort.{
  total, total-append, max_ℤ, smallest, largest, smallest-snoc, largest-snoc,
}

-- Each aggregate is what the samples say.
pub record IsConsistent (t : LatencyTracker) : Type 0 where
  pub e2e_count : t.total_count ≡ pos (length t.e2e_samples)
  pub queue_count : t.total_count ≡ pos (length t.queue_samples)
  pub match_count : t.total_count ≡ pos (length t.match_samples)
  pub network_count : t.total_count ≡ pos (length t.network_samples)
  pub least : All (λ x. ltb_ℤ x t.min_e2e ≡ false) t.e2e_samples
  pub greatest : All (λ x. ltb_ℤ t.max_e2e x ≡ false) t.e2e_samples
  pub min_value : t.min_e2e ≡ smallest (pos (2 ^ 63 - 1)) t.e2e_samples
  pub max_value : t.max_e2e ≡ largest (pos 0) t.e2e_samples
  pub sum : t.sum_e2e ≡ total (pos 0) t.e2e_samples
  pub network_time : t.time_network ≡ total (pos 0) t.network_samples
  pub queue_time : t.time_queue ≡ total (pos 0) t.queue_samples
  pub match_time : t.time_orderbook ≡ total (pos 0) t.match_samples

pub fresh-IsConsistent : IsConsistent fresh
fresh-IsConsistent = record {
  e2e_count = refl;
  queue_count = refl;
  match_count = refl;
  network_count = refl;
  least = tt;
  greatest = tt;
  min_value = refl;
  max_value = refl;
  sum = refl;
  network_time = refl;
  queue_time = refl;
  match_time = refl;
}

abbrev pub Fits : ℤ → Type 0
Fits z = fits int64_limit z ≡ true

-- The differences of the stamps are `int64_t` values.
pub record StampsFit {P : Type 0} (cmd : Command P) : Type 0 where
  pub network : Fits (cmd.ts_queue_push -ℤ cmd.ts_network_recv)
  pub queue : Fits (cmd.ts_queue_pop -ℤ cmd.ts_queue_push)
  pub matching : Fits (cmd.ts_match_complete -ℤ cmd.ts_process_start)
  pub e2e : Fits (cmd.ts_match_complete -ℤ cmd.ts_network_recv)

abbrev pub segments_of : {P : Type 0} → Command P → Segments
segments_of cmd = record {
  net_lat = cmd.ts_queue_push -ℤ cmd.ts_network_recv;
  q_lat = cmd.ts_queue_pop -ℤ cmd.ts_queue_push;
  match_lat = cmd.ts_match_complete -ℤ cmd.ts_process_start;
  e2e_lat = cmd.ts_match_complete -ℤ cmd.ts_network_recv;
}

-- The new sums are `int64_t` values.
pub record SumsFit (s : Segments) (t : LatencyTracker) : Type 0 where
  pub count : Fits (t.total_count +ℤ pos 1)
  pub e2e : Fits (t.sum_e2e +ℤ s.e2e_lat)
  pub network : Fits (t.time_network +ℤ s.net_lat)
  pub queue : Fits (t.time_queue +ℤ s.q_lat)
  pub matching : Fits (t.time_orderbook +ℤ s.match_lat)

-- What one more recorded command leaves.
pub record Recorded (s : Segments) (t t' : LatencyTracker) : Type 0 where
  pub consistent : IsConsistent t'
  pub e2e : t'.e2e_samples ≡ t.e2e_samples ++ s.e2e_lat ∷ []
  pub queue : t'.queue_samples ≡ t.queue_samples ++ s.q_lat ∷ []
  pub matching : t'.match_samples ≡ t.match_samples ++ s.match_lat ∷ []
  pub network : t'.network_samples ≡ t.network_samples ++ s.net_lat ∷ []

one_more :
    (c : ℤ) (xs : List ℤ) (x : ℤ) → c ≡ pos (length xs) → c +ℤ pos 1 ≡ pos (length (xs ++ x ∷ []))
one_more c xs x e = ground (arith, e, length-append xs (x ∷ []))

lower_bound :
    (m x : ℤ) (xs : List ℤ)
    → All (λ y. ltb_ℤ y m ≡ false) xs
    → All (λ y. ltb_ℤ y (if ltb_ℤ x m then x else m) ≡ false) (xs ++ x ∷ [])
lower_bound m x xs h =
    All-append _ xs (x ∷ []) (All-map (λ y. ltb_ℤ y m ≡ false) _ xs (λ y k. ground arith) h)
      (ground arith, tt)

upper_bound :
    (m x : ℤ) (xs : List ℤ)
    → All (λ y. ltb_ℤ m y ≡ false) xs
    → All (λ y. ltb_ℤ (if ltb_ℤ m x then x else m) y ≡ false) (xs ++ x ∷ [])
upper_bound m x xs h =
    All-append _ xs (x ∷ []) (All-map (λ y. ltb_ℤ m y ≡ false) _ xs (λ y k. ground arith) h)
      (ground arith, tt)

-- The update of the minimum by one more sample, and of the maximum.
min_more :
    (a m x : ℤ) (xs : List ℤ)
    → m ≡ smallest a xs
    → (if ltb_ℤ x m then x else m) ≡ smallest a (xs ++ x ∷ [])
min_more a m x xs e =
    let one : (if ltb_ℤ x m then x else m) ≡ min_ℤ x m = ground arith in
    one ∙ ap (min_ℤ x) e ∙ sym (smallest-snoc a xs x)

max_more :
    (a m x : ℤ) (xs : List ℤ)
    → m ≡ largest a xs
    → (if ltb_ℤ m x then x else m) ≡ largest a (xs ++ x ∷ [])
max_more a m x xs e =
    let one : (if ltb_ℤ m x then x else m) ≡ max_ℤ x m = ground arith in
    one ∙ ap (max_ℤ x) e ∙ sym (largest-snoc a xs x)

sum_more :
    (a : ℤ) (xs : List ℤ) (x : ℤ) → a ≡ total (pos 0) xs → a +ℤ x ≡ total (pos 0) (xs ++ x ∷ [])
sum_more a xs x e = ap (λ k. k +ℤ x) e ∙ sym (total-append (pos 0) xs x)

record_segments-Recorded :
    (s : Segments) (t : LatencyTracker)
    → IsConsistent t
    → SumsFit s t
    → Returns (Recorded s t) (record_segments s t)
unfolding record_segments
record_segments-Recorded s t c f =
    rw (f.count, f.e2e, f.network, f.queue, f.matching)
      (record {
        consistent = record {
          e2e_count = one_more t.total_count t.e2e_samples s.e2e_lat c.e2e_count;
          queue_count = one_more t.total_count t.queue_samples s.q_lat c.queue_count;
          match_count = one_more t.total_count t.match_samples s.match_lat c.match_count;
          network_count = one_more t.total_count t.network_samples s.net_lat c.network_count;
          least = lower_bound t.min_e2e s.e2e_lat t.e2e_samples c.least;
          greatest = upper_bound t.max_e2e s.e2e_lat t.e2e_samples c.greatest;
          min_value = min_more (pos (2 ^ 63 - 1)) t.min_e2e s.e2e_lat t.e2e_samples c.min_value;
          max_value = max_more (pos 0) t.max_e2e s.e2e_lat t.e2e_samples c.max_value;
          sum = sum_more t.sum_e2e t.e2e_samples s.e2e_lat c.sum;
          network_time = sum_more t.time_network t.network_samples s.net_lat c.network_time;
          queue_time = sum_more t.time_queue t.queue_samples s.q_lat c.queue_time;
          match_time = sum_more t.time_orderbook t.match_samples s.match_lat c.match_time;
        };
        e2e = refl;
        queue = refl;
        matching = refl;
        network = refl;
      })

-- Where no difference of the stamps and no new sum overflows `int64_t`, `record` returns: each sample
-- list grows by the command's segment, and the tracker stays consistent: the count is the length of
-- each sample list, no end-to-end sample is below the minimum or above the maximum, the minimum is the
-- smallest of those samples and 2^63 - 1, the maximum the largest of them and 0, and the four sums are
-- the sums of the samples.
pub record_command-Recorded :
    {P : Type 0} (cmd : Command P) (t : LatencyTracker)
    → IsConsistent t
    → StampsFit cmd
    → SumsFit (segments_of cmd) t
    → Returns (Recorded (segments_of cmd) t) (record_command cmd t)
unfolding record_command segments
record_command-Recorded cmd t c d f =
    rw (d.network, d.queue, d.matching, d.e2e) (record_segments-Recorded (segments_of cmd) t c f)

-- `reset` gives the fresh tracker back, whatever was recorded.
pub reset-fresh : (t : LatencyTracker) → reset t ≡ fresh
unfolding reset
reset-fresh t = refl
