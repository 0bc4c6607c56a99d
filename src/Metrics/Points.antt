-- ===== src/Metrics/Points.antt =====
-- How many points a series of a range query can have.
use instacloud_oss.Base.{
  ℕ, ◌+◌, ◌-◌, ◌*◌, ◌≡◌, ◌≤◌, ◌<◌, refl, true, List, [], ◌∷◌, ◌++◌, map, Option, none, some, Map,
  get, put, nat_instance, string_instance, ◌||◌, ltb, arith, All, Bool-cases, inl, inr,
  Option-cases, filter, length, length-filter-le,
}
use instacloud_oss.Metrics.Keys.{Distinct, All-sort, sort-Ascends, All-keys-put, keys-put-Distinct}
use instacloud_oss.Metrics.{Floats, Sample, MetricsTarget, History, max_points}
use instacloud_oss.Metrics.Window.{
  QueryValue, MetricsWindow, window, metrics_window, coarsen, parse_step, safe_step, step_of,
  span_of, split_unit, trim_end, trim_start, digits, window_of, seconds, is_repeated, once, absent,
  repeated,
}
use instacloud_oss.Metrics.Query.{
  sort, keys, in_window, bucket_start, Series, Bucket, fill, series_from, query, add_sample, at,
  rate_series, all_series, has_rate, cpu_value, mem_value, rx_value, tx_value, points_of,
}
use instacloud_oss.Metrics.Range.{IsStart, range_count}

-- The buckets of a query

module _ (floats : Floats) (span to step since : ℕ) where
  open floats use {Num}

  abbrev GoodKeys : Map ℕ (Bucket floats) → Type 0
  GoodKeys m = Distinct (keys m) × All (IsStart span to step) (keys m)

  fill-GoodKeys :
      (prev : Option (Sample Num)) (xs : List (Sample Num)) (m : Map ℕ (Bucket floats))
      → GoodKeys m
      → GoodKeys (fill floats span to step since prev xs m)
  unfolding fill in_window
  fill-GoodKeys prev [] m g = g
  fill-GoodKeys prev (x ∷ xs) m (d, s) = elim (Bool-cases (in_window span to since x.t)) [
    | inl e ↦
        let b = add_sample floats since prev x (at floats m (bucket_start step x.t)) in
        rw e (
          fill-GoodKeys (some x) xs (put (bucket_start step x.t) b m) (
            keys-put-Distinct (bucket_start step x.t) b m d,
            All-keys-put (IsStart span to step) (bucket_start step x.t) b m (start x e) s,
          ))
    | inr e ↦ rw e (fill-GoodKeys (some x) xs m (d, s))
  ]
    where
      start :
          (y : Sample Num)
          → in_window span to since y.t ≡ true
          → IsStart span to step (bucket_start step y.t)
      start y h = (y.t, refl, ground arith, ground arith)

length-map : {A B : Type 0} (f : A → B) (xs : List A) → length (map f xs) ≡ length xs
length-map f [] = refl
length-map f (x ∷ xs) = omega (arith, length-map f xs)

-- No series has more points than the limit.
abbrev pub IsBounded : {Num : Type 0} → List (Series Num) → Type 0
IsBounded ss = All (λ s. length s.points ≤ max_points) ss

append-IsBounded :
    {Num : Type 0} (ss ts : List (Series Num)) → IsBounded ss → IsBounded ts → IsBounded (ss ++ ts)
append-IsBounded [] ts h k = k
append-IsBounded (s ∷ ss) ts (h, hs) k = (h, append-IsBounded ss ts hs k)

-- The window

-- The coarsened step is positive, and at most 1999 of it cover the window.
coarsen_lem :
    (span step : ℕ)
    → 0 < span
    → 0 < step
    → (0 < coarsen span step) × (span ≤ (max_points - 1) * coarsen span step)
unfolding coarsen
coarsen_lem span step h k = elim (Bool-cases (ltb (max_points * step) (span + step))) [
  | inl e ↦ rw e (omega arith, omega arith)
  | inr e ↦ rw e (k, ground arith)
]

abbrev IsCovered : MetricsWindow → Type 0
IsCovered w = (0 < w.step) × (w.span ≤ (max_points - 1) * w.step)

safe_step-positive : (n m : ℕ) → safe_step n ≡ some m → 0 < m
safe_step-positive n m h = ground arith

step_of-positive : (q : QueryValue) (n : ℕ) → step_of q ≡ some n → 0 < n
unfolding parse_step
step_of-positive absent n h = ground arith
step_of-positive repeated n h = ground arith
step_of-positive (once []) n h = ground arith
step_of-positive (once (c ∷ cs)) n h =
    let (number, unit) = split_unit (trim_end (trim_start (c ∷ cs))) in
    elim (Option-cases (digits number)) [
      | inl e ↦ ground arith
      | inr (m, e) ↦ safe_step-positive (m * unit) n (ground arith)
    ]

span_of-positive : (to : ℕ) (from : Option ℕ) (span : ℕ) → span_of to from ≡ some span → 0 < span
span_of-positive to none span h = ground arith
span_of-positive to (some from) span h = ground arith

window_of-IsCovered :
    (to : ℕ) (from : Option ℕ) (q : QueryValue) (w : MetricsWindow)
    → window_of to from (step_of q) ≡ window w
    → IsCovered w
unfolding window_of
window_of-IsCovered to from q w h = elim (Option-cases (step_of q)) [
  | inl e ↦ absurd (ground arith)
  | inr (step, e) ↦ elim (Option-cases (span_of to from)) [
    | inl f ↦ absurd (ground arith)
    | inr (span, f) ↦
        let (p, c) =
          coarsen_lem span step (span_of-positive to from span f) (step_of-positive q step e) in
        (ground (arith, p), ground (arith, c))
  ]
]

window-IsCovered :
    (from_q to_q step_q : QueryValue) (now_sec : ℕ) (w : MetricsWindow)
    → metrics_window from_q to_q step_q now_sec ≡ window w
    → IsCovered w
unfolding metrics_window
window-IsCovered from_q to_q step_q now_sec w h =
    elim (Bool-cases (is_repeated from_q || (is_repeated to_q || is_repeated step_q))) [
      | inl e ↦ absurd (ground arith)
      | inr e ↦ elim (Option-cases (seconds to_q now_sec (λ n. n))) [
        | inl f ↦ absurd (ground arith)
        | inr (to, f) ↦ elim (Option-cases (seconds from_q none (λ n. some n))) [
          | inl g ↦ absurd (ground arith)
          | inr (from, g) ↦ window_of-IsCovered to from step_q w (ground arith)
        ]
      ]
    ]

module _ (floats : Floats) where
  open floats use {Num}

  module _ (target : MetricsTarget) (m : Map ℕ (Bucket floats)) where
    few_points :
        (value : Bucket floats → Num) (ks : List ℕ)
        → length ks ≤ max_points
        → length (points_of floats value m ks) ≤ max_points
    few_points value ks h =
        omega (arith, length-map {B = ℕ × Num} (λ k. (k, value (at floats m k))) ks, h)

    rate_series-IsBounded :
        (ks : List ℕ) → length ks ≤ max_points → IsBounded (rate_series floats target m ks)
    rate_series-IsBounded [] h = tt
    rate_series-IsBounded (k ∷ ks) h =
        (few_points (tx_value floats) (k ∷ ks) h, (few_points (rx_value floats) (k ∷ ks) h, tt))

    all_series-IsBounded :
        (ks : List ℕ) → length ks ≤ max_points → IsBounded (all_series floats target m ks)
    all_series-IsBounded [] h = tt
    all_series-IsBounded (k ∷ ks) h = (
      few_points (cpu_value floats) (k ∷ ks) h,
      (
        few_points (mem_value floats) (k ∷ ks) h,
        rate_series-IsBounded (filter (has_rate floats target m) (k ∷ ks))
            (omega (arith, length-filter-le (has_rate floats target m) (k ∷ ks), h)),
      ),
    )

  query-IsBounded :
      (targets : List MetricsTarget) (span to step : ℕ) (h : History Num)
      → 0 < step
      → span ≤ (max_points - 1) * step
      → IsBounded (query floats targets span to step h)
  unfolding query series_from
  query-IsBounded [] span to step h p e = tt
  query-IsBounded (target ∷ targets) span to step h p e =
      let rest = query-IsBounded targets span to step h p e in
      elim (Option-cases (get target.container h)) [
        | inl f ↦ rw f rest
        | inr (arr, f) ↦
            let m = fill floats span to step target.since none arr [] in
            let good = fill-GoodKeys floats span to step target.since none arr [] (tt, tt) in
            let count =
              range_count span to step p (sort (keys m)) (sort-Ascends (keys m) good.0)
                (All-sort (IsStart span to step) (keys m) good.1) e in
            let own = all_series-IsBounded target m (sort (keys m)) count in
            rw f (
              append-IsBounded (series_from floats target m) (query floats targets span to step h)
                own rest)
      ]

  -- No series that answers a request has more than 2000 points, whatever its window, its step, its
  -- targets and the history: a step that would exceed them is coarsened.
  pub answer-IsBounded :
      (from_q to_q step_q : QueryValue) (now_sec : ℕ) (w : MetricsWindow)
      (targets : List MetricsTarget) (h : History Num)
      → metrics_window from_q to_q step_q now_sec ≡ window w
      → IsBounded (query floats targets w.span w.to w.step h)
  answer-IsBounded from_q to_q step_q now_sec w targets h e =
      let (positive, covered) = window-IsCovered from_q to_q step_q now_sec w e in
      query-IsBounded targets w.span w.to w.step h positive covered
