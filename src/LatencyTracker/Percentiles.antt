-- ===== src/LatencyTracker/Percentiles.antt =====
-- `percentile` is the nearest-rank percentile.
use order_matching_engine.Base.{
  ℕ, suc, zero, ◌-◌, ◌^◌, ◌≤◌, ◌<◌, ◌≡◌, refl, ap, Bool, false, not, List, [], ◌∷◌, arith, length,
  get_or, All,
}
use order_matching_engine.Base.Int.{ℤ, pos, ltb_ℤ}
use order_matching_engine.LatencyTracker.{sort, index_of, percentile}
use order_matching_engine.LatencyTracker.Sort.{
  IsSorted, count, count-sort, length-sort, sort-IsSorted,
}

-- The samples below a value, and those not above it.
abbrev pub below : ℤ → List ℤ → ℕ
below v = count (λ y. ltb_ℤ y v)

abbrev pub up_to : ℤ → List ℤ → ℕ
up_to v = count (λ y. not (ltb_ℤ v y))

below_zero : (v : ℤ) (xs : List ℤ) → All (λ y. ltb_ℤ y v ≡ false) xs → below v xs ≡ 0
below_zero v [] h = refl
below_zero v (x ∷ xs) h = ground (arith, h.0, below_zero v xs h.1)

get_or-All :
    (Q : ℤ → Type 0) (xs : List ℤ) (i : ℕ) → i < length xs → All Q xs → Q (get_or xs i (pos 0))
get_or-All Q [] i p h = absurd (omega arith)
get_or-All Q (x ∷ xs) zero p h = h.0
get_or-All Q (x ∷ xs) (suc i) p h = get_or-All Q xs i (omega arith) h.1

-- At index `i` of sorted samples: at most `i` samples are below, more than `i` are not above.
sorted_at :
    (xs : List ℤ) (i : ℕ)
    → IsSorted xs
    → i < length xs
    → (below (get_or xs i (pos 0)) xs ≤ i) × (suc i ≤ up_to (get_or xs i (pos 0)) xs)
sorted_at [] i h p = absurd (omega arith)
sorted_at (x ∷ xs) zero h p = ground (arith, below_zero x xs h.0)
sorted_at (x ∷ xs) (suc i) h p =
    let r = sorted_at xs i h.1 (omega arith) in
    let le = get_or-All (λ y. ltb_ℤ y x ≡ false) xs i (omega arith) h.0 in
    ground (arith, r.0, r.1, le)

index_of-rank : (r n : ℕ) → 1 ≤ r → r ≤ n → n < 2 ^ 64 → index_of r n ≡ r - 1
index_of-rank r n p q b = ground arith

-- The value is the `k`-th smallest sample, and the samples are sorted.
pub record NearestRank (k : ℕ) (samples : List ℤ) (r : ℤ × List ℤ) : Type 0 where
  pub fewer_below : below r.0 samples < k
  pub enough_up_to : k ≤ up_to r.0 samples
  pub sorted : IsSorted r.1
  pub same_samples : (p : ℤ → Bool) → count p r.1 ≡ count p samples

kth_smallest :
    (k : ℕ) (samples : List ℤ)
    → 1 ≤ k
    → k ≤ length samples
    → NearestRank k samples (get_or (sort samples) (k - 1) (pos 0), sort samples)
kth_smallest k xs p q =
    let v = get_or (sort xs) (k - 1) (pos 0) in
    let r = sorted_at (sort xs) (k - 1) (sort-IsSorted xs) (omega (arith, length-sort xs)) in
    record {
      fewer_below = omega (arith, r.0, count-sort (λ y. ltb_ℤ y v) xs);
      enough_up_to = omega (arith, r.1, count-sort (λ y. not (ltb_ℤ v y)) xs);
      sorted = sort-IsSorted xs;
      same_samples = λ t. count-sort t xs;
    }

percentile_at :
    (rank : ℕ → ℕ) (samples : List ℤ)
    → 1 ≤ rank (length samples)
    → rank (length samples) ≤ length samples
    → length samples < 2 ^ 64
    → percentile rank samples
      ≡ (get_or (sort samples) (rank (length samples) - 1) (pos 0), sort samples)
unfolding percentile
percentile_at rank [] p q b = absurd (omega arith)
percentile_at rank (x ∷ xs) p q b =
    let s = sort (x ∷ xs) in
    let at : index_of (rank (length s)) (length s) ≡ rank (suc (length xs)) - 1 =
      rw (length-sort (x ∷ xs)) (index_of-rank (rank (suc (length xs))) (suc (length xs)) p q b) in
    ap (λ i. (get_or s i (pos 0), s)) at

-- For a rank `k` with 1 ≤ k ≤ n of n < 2 ^ 64 samples, `percentile` returns the k-th smallest sample:
-- fewer than `k` samples are smaller than the value, and at least `k` are not larger. The samples are
-- then sorted, and any test holds of as many of them as before.
pub percentile-NearestRank :
    (rank : ℕ → ℕ) (samples : List ℤ)
    → 1 ≤ rank (length samples)
    → rank (length samples) ≤ length samples
    → length samples < 2 ^ 64
    → NearestRank (rank (length samples)) samples (percentile rank samples)
percentile-NearestRank rank samples p q b =
    rw (percentile_at rank samples p q b) (kth_smallest (rank (length samples)) samples p q)
