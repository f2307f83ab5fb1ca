-- ===== src/LatencyTracker/Bounds.antt =====
-- The size of the tracker's sums, for stamps below a bound.
use order_matching_engine.Base.{
  ℕ, suc, ◌+◌, ◌*◌, ◌^◌, ◌≤◌, ◌<◌, ◌≡◌, ap, subst, List, [], ◌∷◌, ◌++◌, arith, length,
  length-append,
}
use order_matching_engine.Base.Exec.{Returns, Returns-both}
use order_matching_engine.Base.Int.{ℤ, pos, negsuc, pos_part, neg_part, ◌+ℤ◌, ◌-ℤ◌}
use order_matching_engine.Order.{Command}
use order_matching_engine.LatencyTracker.{
  LatencyTracker, fresh, Segments, segments, record_segments, record_command,
}
use order_matching_engine.LatencyTracker.Totals.{
  IsConsistent, Fits, StampsFit, segments_of, SumsFit, Recorded, record_command-Recorded,
}

abbrev pub magnitude : ℤ → ℕ
magnitude z = pos_part z + neg_part z

-- A clock reading from 0 up to `bound`.
abbrev pub IsInstant : ℕ → ℤ → Type 0
IsInstant bound z = (neg_part z ≡ 0) × (pos_part z < bound)

-- The stamps that the differences are taken of.
pub record IsStamped {P : Type 0} (bound : ℕ) (cmd : Command P) : Type 0 where
  pub network_recv : IsInstant bound cmd.ts_network_recv
  pub queue_push : IsInstant bound cmd.ts_queue_push
  pub queue_pop : IsInstant bound cmd.ts_queue_pop
  pub process_start : IsInstant bound cmd.ts_process_start
  pub match_complete : IsInstant bound cmd.ts_match_complete

-- The count and the sums stay below `m`.
pub record Within (m : ℕ) (t : LatencyTracker) : Type 0 where
  pub count : magnitude t.total_count ≤ m
  pub e2e : magnitude t.sum_e2e ≤ m
  pub network : magnitude t.time_network ≤ m
  pub queue : magnitude t.time_queue ≤ m
  pub matching : magnitude t.time_orderbook ≤ m

magnitude-difference :
    (bound : ℕ) (a b : ℤ) → IsInstant bound a → IsInstant bound b → magnitude (a -ℤ b) < bound
magnitude-difference bound (pos a) (pos b) h k = ground arith
magnitude-difference bound (negsuc a) b h k = absurd (omega (arith, h.0))
magnitude-difference bound (pos a) (negsuc b) h k = absurd (omega (arith, k.0))

magnitude-sum : (a b : ℤ) → magnitude (a +ℤ b) ≤ magnitude a + magnitude b
magnitude-sum (pos a) (pos b) = ground arith
magnitude-sum (pos a) (negsuc b) = ground arith
magnitude-sum (negsuc a) (pos b) = ground arith
magnitude-sum (negsuc a) (negsuc b) = ground arith

magnitude-Fits : (z : ℤ) → magnitude z < 2 ^ 63 → Fits z
magnitude-Fits (pos a) h = ground arith
magnitude-Fits (negsuc a) h = ground arith

-- Adding a smaller value to a sum.
sum_bound :
    (m bound : ℕ) (a b : ℤ) → magnitude a ≤ m → magnitude b < bound → magnitude (a +ℤ b) ≤ m + bound
sum_bound m bound a b h k = omega (arith, magnitude-sum a b)

difference-Fits :
    (bound : ℕ) (a b : ℤ) → IsInstant bound a → IsInstant bound b → bound < 2 ^ 63 → Fits (a -ℤ b)
difference-Fits bound a b h k l =
    magnitude-Fits (a -ℤ b) (omega (arith, magnitude-difference bound a b h k))

sum-Fits :
    (m bound : ℕ) (a b : ℤ)
    → magnitude a ≤ m
    → magnitude b < bound
    → m + bound < 2 ^ 63
    → Fits (a +ℤ b)
sum-Fits m bound a b h k l = magnitude-Fits (a +ℤ b) (omega (arith, sum_bound m bound a b h k))

-- The four differences are smaller than the bound.
record SmallSegments (bound : ℕ) (s : Segments) : Type 0 where
  pub net : magnitude s.net_lat < bound
  pub queue : magnitude s.q_lat < bound
  pub matching : magnitude s.match_lat < bound
  pub e2e : magnitude s.e2e_lat < bound

one_step : (m bound : ℕ) (a : ℤ) → magnitude a ≤ m → 0 < bound → magnitude (a +ℤ pos 1) ≤ m + bound
one_step m bound a h b = omega (arith, magnitude-sum a (pos 1))

SumsFit-Within :
    (bound m : ℕ) (s : Segments) (t : LatencyTracker)
    → Within m t
    → SmallSegments bound s
    → 0 < bound
    → m + bound < 2 ^ 63
    → SumsFit s t
SumsFit-Within bound m s t w k b h = record {
  count =
      magnitude-Fits (t.total_count +ℤ pos 1)
        (omega (arith, one_step m bound t.total_count w.count b));
  e2e = sum-Fits m bound t.sum_e2e s.e2e_lat w.e2e k.e2e h;
  network = sum-Fits m bound t.time_network s.net_lat w.network k.net h;
  queue = sum-Fits m bound t.time_queue s.q_lat w.queue k.queue h;
  matching = sum-Fits m bound t.time_orderbook s.match_lat w.matching k.matching h;
}

module _ {P : Type 0} (bound : ℕ) where
  pub StampsFit-IsStamped : (cmd : Command P) → IsStamped bound cmd → bound < 2 ^ 63 → StampsFit cmd
  StampsFit-IsStamped cmd s b = record {
    network =
        difference-Fits bound cmd.ts_queue_push cmd.ts_network_recv s.queue_push s.network_recv b;
    queue = difference-Fits bound cmd.ts_queue_pop cmd.ts_queue_push s.queue_pop s.queue_push b;
    matching =
        difference-Fits bound cmd.ts_match_complete cmd.ts_process_start s.match_complete
          s.process_start b;
    e2e =
        difference-Fits bound cmd.ts_match_complete cmd.ts_network_recv s.match_complete
          s.network_recv b;
  }

  segments_of-SmallSegments :
      (cmd : Command P) → IsStamped bound cmd → SmallSegments bound (segments_of cmd)
  segments_of-SmallSegments cmd s = record {
    net =
        magnitude-difference bound cmd.ts_queue_push cmd.ts_network_recv s.queue_push
          s.network_recv;
    queue = magnitude-difference bound cmd.ts_queue_pop cmd.ts_queue_push s.queue_pop s.queue_push;
    matching =
        magnitude-difference bound cmd.ts_match_complete cmd.ts_process_start s.match_complete
          s.process_start;
    e2e =
        magnitude-difference bound cmd.ts_match_complete cmd.ts_network_recv s.match_complete
          s.network_recv;
  }

  record_command-Within :
      (m : ℕ) (cmd : Command P) (t : LatencyTracker)
      → Within m t
      → IsStamped bound cmd
      → 0 < bound
      → m + bound < 2 ^ 63
      → Returns (Within (m + bound)) (record_command cmd t)
  unfolding record_command segments record_segments
  record_command-Within m cmd t w s b h =
      let d = StampsFit-IsStamped cmd s (omega arith) in
      let k = segments_of-SmallSegments cmd s in
      let f = SumsFit-Within bound m (segments_of cmd) t w k b h in
      rw (d.network, d.queue, d.matching, d.e2e, f.count, f.e2e, f.network, f.queue, f.matching)
        (record {
          count = one_step m bound t.total_count w.count b;
          e2e = sum_bound m bound t.sum_e2e (segments_of cmd).e2e_lat w.e2e k.e2e;
          network = sum_bound m bound t.time_network (segments_of cmd).net_lat w.network k.net;
          queue = sum_bound m bound t.time_queue (segments_of cmd).q_lat w.queue k.queue;
          matching =
              sum_bound m bound t.time_orderbook (segments_of cmd).match_lat w.matching k.matching;
        })

  -- A consistent tracker that stays so, with its sums within `m + bound`.
  pub record_command-bounded :
      (m : ℕ) (cmd : Command P) (t : LatencyTracker)
      → IsConsistent t
      → Within m t
      → IsStamped bound cmd
      → 0 < bound
      → m + bound < 2 ^ 63
      → Returns
          (λ t'. Recorded (segments_of cmd) t t' × Within (m + bound) t')
          (record_command cmd t)
  record_command-bounded m cmd t c w s b h =
      Returns-both _ _ (record_command cmd t)
        (record_command-Recorded cmd t c (StampsFit-IsStamped cmd s (omega arith))
          (SumsFit-Within bound m (segments_of cmd) t w (segments_of-SmallSegments cmd s) b h))
        (record_command-Within m cmd t w s b h)

pub fresh-Within : Within 0 fresh
fresh-Within = record {
  count = omega arith;
  e2e = omega arith;
  network = omega arith;
  queue = omega arith;
  matching = omega arith;
}

pub sum_of_times :
    (m : ℕ) (t : LatencyTracker)
    → Within m t
    → 3 * m < 2 ^ 63
    → Fits (t.time_network +ℤ t.time_queue)
      × Fits ((t.time_network +ℤ t.time_queue) +ℤ t.time_orderbook)
sum_of_times m t w h =
    let two = magnitude-sum t.time_network t.time_queue in
    let all = magnitude-sum (t.time_network +ℤ t.time_queue) t.time_orderbook in
    let n = w.network in
    let q = w.queue in
    let o = w.matching in
    (
      magnitude-Fits (t.time_network +ℤ t.time_queue) (omega arith),
      magnitude-Fits ((t.time_network +ℤ t.time_queue) +ℤ t.time_orderbook) (omega arith),
    )

pub Within-≡ : (m n : ℕ) (t : LatencyTracker) → m ≡ n → Within m t → Within n t
Within-≡ m n t e w = subst (λ k. Within k t) e w

pub Within-mono : (m k : ℕ) (t : LatencyTracker) → Within m t → Within (m + k) t
Within-mono m k t w = record {
  count = omega (arith, w.count);
  e2e = omega (arith, w.e2e);
  network = omega (arith, w.network);
  queue = omega (arith, w.queue);
  matching = omega (arith, w.matching);
}

-- The items up to one of them.
pub prefix_product :
    {A : Type 0} (bound : ℕ) (items before : List A) (x : A) (after : List A)
    → items ≡ before ++ x ∷ after
    → (1 + length before) * bound ≤ length items * bound
prefix_product bound items before x after e =
    let parts : length items ≡ 1 + length before + length after =
      omega (arith, ap length e, length-append before (x ∷ after)) in
    rw parts (omega arith)

-- One more item.
pub Within-snoc :
    {A : Type 0} (bound : ℕ) (done : List A) (x : A) (t : LatencyTracker)
    → Within (length done * bound + bound) t
    → Within (length (done ++ x ∷ []) * bound) t
Within-snoc bound done x t w =
    let one : length (done ++ x ∷ []) ≡ suc (length done) =
      omega (arith, length-append done (x ∷ [])) in
    rw one (Within-≡ (length done * bound + bound) (suc (length done) * bound) t (omega arith) w)
