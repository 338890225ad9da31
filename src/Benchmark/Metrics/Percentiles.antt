-- ===== src/Benchmark/Metrics/Percentiles.antt =====
-- python/benchmark/metrics.py: the rank and the order of the percentiles that a benchmark
-- reports.
use ai_infrastructure_platfo.Prelude.{
  max, not, ◌+◌, ℕ, zero, suc, ◌-◌, ◌≤◌, ◌<◌, ◌≡◌, refl, ap, String, false, List, [], ◌∷◌, length,
  map, min, get_or, arith,
}
use ai_infrastructure_platfo.Prelude.Counts.{count_if, NoneOf, length-SameItems}
use ai_infrastructure_platfo.Floats.{Floats, FloatOrder}
use ai_infrastructure_platfo.Floats.Laws.{Le, FloatArith, le_refl, le_trans}
use ai_infrastructure_platfo.Heapq.Sorted.{WeakOrder, sort, IsSorted, sort-IsSorted, sort-SameItems}
use ai_infrastructure_platfo.Benchmark.Metrics.{
  RequestMetric, rank, percentile, succeeded, aggregate_metrics,
}

-- Rounding to an integer or to decimals is monotone, and literals are in the order of their digits.
pub record Rounding {F : Type 0} (fl : Floats F) : Type 0 where
  pub trunc_mono : (a b : F) → fl.lt b a ≡ false → fl.trunc a ≤ fl.trunc b
  pub round_mono :
      (a b : F) (k : ℕ) → fl.lt b a ≡ false → fl.lt (fl.round b k) (fl.round a k) ≡ false
  pub lit_mono : (m n k : ℕ) → m ≤ n → fl.lt (fl.lit n k) (fl.lit m k) ≡ false

module _ {F : Type 0} ⦃fl : Floats F⦄ where
  -- With k the whole part of the share of n values, which are not none: fewer than k values are
  -- below the percentile, none if k is 0, and at least k are not above it, one if k is 0, all if
  -- there are no more.
  abbrev pub AtRank : List F → F → Type 0
  AtRank values p =
      let k = fl.trunc (fl.mul (fl.lit (length values) 0) p) in
      (count_if (λ v. fl.lt v (percentile values p)) values ≤ k - 1)
      × (min (max k 1) (length values) ≤ count_if (λ v. not (fl.lt (percentile values p) v)) values)

  -- A percentile as it is reported, rounded to two decimals.
  abbrev pub Reports : F → List F → F → Type 0
  Reports reported values p = (reported ≡ fl.round (percentile values p) 2) × AtRank values p

module _ {F : Type 0} ⦃fl : Floats F⦄ (fo : FloatOrder fl) where
  lt-WeakOrder : WeakOrder fl.lt
  lt-WeakOrder = record {
    asym = λ x y h. ground (arith, fo.lt_irrefl x, fo.lt_trans x y x);
    steps = λ x y z h k. le_trans fo x y z h k;
  }

  below_later :
      (x : F) (xs : List F) (j : ℕ) (d : F)
      → NoneOf (λ y. fl.lt y x) xs
      → j < length xs
      → Le x (get_or xs j d)
  below_later x [] j d n h = absurd (omega arith)
  below_later x (y ∷ xs) zero d n h = ground arith
  below_later x (y ∷ xs) (suc j) d n h = below_later x xs j d (ground arith) (omega arith)

  get_or_mono :
      (xs : List F) (i j : ℕ) (d : F)
      → IsSorted fl.lt xs
      → i ≤ j
      → j < length xs
      → Le (get_or xs i d) (get_or xs j d)
  get_or_mono [] i j d s h k = absurd (omega arith)
  get_or_mono (x ∷ xs) zero zero d s h k = le_refl fo x
  get_or_mono (x ∷ xs) zero (suc j) d s h k = below_later x xs j d s.0 (omega arith)
  get_or_mono (x ∷ xs) (suc i) zero d s h k = absurd (omega arith)
  get_or_mono (x ∷ xs) (suc i) (suc j) d s h k =
      get_or_mono xs i j d s.1 (omega arith) (omega arith)

  get_or-clamped :
      (xs : List F) (a b : ℕ) (d : F)
      → IsSorted fl.lt xs
      → a ≤ b
      → Le (get_or xs (min a (length xs - 1)) d) (get_or xs (min b (length xs - 1)) d)
  get_or-clamped [] a b d s h = le_refl fo d
  get_or-clamped (x ∷ xs) a b d s h =
      get_or_mono (x ∷ xs) (min a (length (x ∷ xs) - 1)) (min b (length (x ∷ xs) - 1)) d s
        (omega arith) (omega arith)

  module _ (fa : FloatArith fl) (r : Rounding fl) where
    -- A percentile grows with its share.
    percentile_mono :
        (values : List F) (p q : F) → Le p q → Le (percentile values p) (percentile values q)
    unfolding percentile rank
    percentile_mono [] p q h = le_refl fo (fl.lit 0 0)
    percentile_mono (x ∷ xs) p q h =
        let s = sort fl.lt (x ∷ xs) in
        let n : F = fl.lit (length s) 0 in
        let more =
          r.trunc_mono (fl.mul n p) (fl.mul n q)
            (fa.mul_left n p q (fa.lit_nonneg (length s) 0) h) in
        get_or-clamped s _ _ (fl.lit 0 0) (sort-IsSorted fl.lt lt-WeakOrder (x ∷ xs)) (omega arith)

    -- The entry at a place of a sorted list has as many entries below it at most, and with itself one
    -- more that are not above it at least.
    below-get_or :
        (xs : List F) (i : ℕ) (d : F)
        → IsSorted fl.lt xs
        → i < length xs
        → (count_if (λ v. fl.lt v (get_or xs i d)) xs ≤ i)
          × (i + 1 ≤ count_if (λ v. not (fl.lt (get_or xs i d) v)) xs)
    below-get_or [] i d s h = absurd (omega arith)
    below-get_or (x ∷ xs) zero d s h = ground (arith, fo.lt_irrefl x, s.0)
    below-get_or (x ∷ xs) (suc i) d s h =
        let (few, many) = below-get_or xs i d s.1 (omega arith) in
        let above = below_later x xs i d s.0 (omega arith) in ground (arith, above)

    percentile-AtRank : (values : List F) (p : F) → AtRank values p
    unfolding percentile rank
    percentile-AtRank [] p = (omega arith, omega arith)
    percentile-AtRank (x ∷ xs) p =
        let s = sort fl.lt (x ∷ xs) in
        let same = sort-SameItems fl.lt (x ∷ xs) in
        let size = length-SameItems s (x ∷ xs) same in
        let share : ℕ → ℕ = λ n. fl.trunc (fl.mul (fl.lit n 0) p) in
        let place = min (share (length s) - 1) (length s - 1) in
        let value = get_or s place (fl.lit 0 0) in
        let (few, many) =
          below-get_or s place (fl.lit 0 0) (sort-IsSorted fl.lt lt-WeakOrder (x ∷ xs))
            (omega arith) in
        (
          omega (arith, same (λ v. fl.lt v value), ap share size, few),
          omega (arith, same (λ v. not (fl.lt value v)), ap share size, size, many),
        )

    successes_bound :
        (metrics : List (RequestMetric F)) → count_if succeeded metrics ≤ length metrics
    successes_bound [] = omega arith
    successes_bound (m ∷ metrics) = ground (arith, successes_bound metrics)

    -- With an order of the floats and rounding and arithmetic that are monotone: in every result
    -- the percentiles of the whole time and of the queue wait are rounded ones, each at its rank
    -- among the values. Fewer values than the whole part of its share are below it (none if that is
    -- 0), and at least as many are not above it (one if that is 0, all if there are no more). Of
    -- the whole time the median is at most the 95th and that at most the 99th; of the queue wait
    -- the median is at most the 99th; and no more requests succeeded than there were.
    pub aggregate_metrics-percentiles :
        (scheduler : String) (concurrency : ℕ) (metrics : List (RequestMetric F)) (elapsed_sec : F)
        → let r = aggregate_metrics scheduler concurrency metrics elapsed_sec in
          let e2es = map (λ (m : RequestMetric F). m.e2e_ms) metrics in
          let waits = map (λ (m : RequestMetric F). m.queue_wait_ms) metrics in
          (Reports r.e2e_p50_ms e2es (fl.lit 50 2)
            × Reports r.e2e_p95_ms e2es (fl.lit 95 2)
            × Reports r.e2e_p99_ms e2es (fl.lit 99 2)
            × Reports r.queue_wait_p50_ms waits (fl.lit 50 2)
            × Reports r.queue_wait_p99_ms waits (fl.lit 99 2))
          × Le r.e2e_p50_ms r.e2e_p95_ms
          × Le r.e2e_p95_ms r.e2e_p99_ms
          × Le r.queue_wait_p50_ms r.queue_wait_p99_ms
          × (r.n_success ≤ r.n_requests)
    unfolding aggregate_metrics
    aggregate_metrics-percentiles scheduler concurrency metrics elapsed_sec =
        let e2es = map (λ (m : RequestMetric F). m.e2e_ms) metrics in
        let waits = map (λ (m : RequestMetric F). m.queue_wait_ms) metrics in
        (
          (
            (refl, percentile-AtRank e2es (fl.lit 50 2)),
            (refl, percentile-AtRank e2es (fl.lit 95 2)),
            (refl, percentile-AtRank e2es (fl.lit 99 2)),
            (refl, percentile-AtRank waits (fl.lit 50 2)),
            (refl, percentile-AtRank waits (fl.lit 99 2)),
          ),
          r.round_mono _ _ 2 (percentile_mono e2es _ _ (r.lit_mono 50 95 2 (omega arith))),
          r.round_mono _ _ 2 (percentile_mono e2es _ _ (r.lit_mono 95 99 2 (omega arith))),
          r.round_mono _ _ 2 (percentile_mono waits _ _ (r.lit_mono 50 99 2 (omega arith))),
          successes_bound metrics,
        )
