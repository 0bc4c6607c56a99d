-- ===== src/Metrics/Range.antt =====
-- How many bucket starts a range of time can have.
use instacloud_oss.Base.{
  ℕ, suc, ◌+◌, ◌-◌, ◌*◌, ◌/◌, ◌≡◌, ◌≤◌, ◌<◌, List, [], ◌∷◌, nat_instance, string_instance, arith,
  All, length,
}
use native.Mathlib.Nat.{
  lt_of_mul-lt-mul_right, mul-le-mul_right, suc-mul, div-mul-le_self, lt-div-mul-add,
  le-div_iff_mul-le,
}
use instacloud_oss.Metrics.Keys.{Ascends}
use instacloud_oss.Metrics.{max_points}
use instacloud_oss.Metrics.Query.{bucket_start}

-- Multiples of a step in a range

-- The start of a bucket that holds a time from `to - span` to `to`.
abbrev pub IsStart : ℕ → ℕ → ℕ → ℕ → Type 0
IsStart span to step k = (t : ℕ) × (k ≡ bucket_start step t) × (to ≤ t + span) × (t ≤ to)

pub step_apart :
    (step s t : ℕ)
    → bucket_start step s < bucket_start step t
    → bucket_start step s + step ≤ bucket_start step t
step_apart step s t h =
    let below : s / step < t / step = lt_of_mul-lt-mul_right step h in
    let le : suc (s / step) * step ≤ t / step * step = mul-le-mul_right step (omega arith) in
    omega (arith, le, suc-mul (s / step) step)

module _ (span to step : ℕ) (positive : 0 < step) where
  -- Ascending starts from `low` on take up a step each.
  pub ascending_count :
      (low : ℕ) (ks : List ℕ)
      → Ascends ks
      → All (IsStart span to step) ks
      → All (λ k. low ≤ k) ks
      → low ≤ to + step
      → length ks * step + low ≤ to + step
  ascending_count low [] a starts above h = omega arith
  ascending_count low (k ∷ ks) (a, rest) ((t, e, _, late), starts) (above, _) h =
      let k_late : k ≤ to = omega (arith, e, late, div-mul-le_self t step) in
      let count =
        ascending_count (k + step) ks rest starts (next ks a starts) (omega (arith, k_late)) in
      omega (arith, count, suc-mul (length ks) step, above)
    where
      next :
          (js : List ℕ)
          → All (λ j. k < j) js
          → All (IsStart span to step) js
          → All (λ j. k + step ≤ j) js
      next [] a starts = tt
      next (j ∷ js) (h, hs) ((u, f, _, _), starts) =
          let apart = step_apart step t u (omega (arith, e, f, h)) in
          (omega (arith, e, f, apart), next js hs starts)

  pub bucket_start_mono : (s t : ℕ) → s ≤ t → bucket_start step s ≤ bucket_start step t
  bucket_start_mono s t h =
      mul-le-mul_right step
        ((le-div_iff_mul-le positive).1 (omega (arith, h, div-mul-le_self s step)))

  -- A range of at most 1999 steps has at most 2000 bucket starts.
  pub range_count :
      (ks : List ℕ)
      → Ascends ks
      → All (IsStart span to step) ks
      → span ≤ (max_points - 1) * step
      → length ks ≤ max_points
  range_count ks a starts h =
      let low = bucket_start step (to - span) in
      let early : low ≤ to - span = div-mul-le_self (to - span) step in
      let close : to - span < low + step = lt-div-mul-add positive in
      let count : length ks * step + low ≤ to + step =
        ascending_count low ks a starts (above ks starts) (omega (arith, early)) in
      let less : length ks * step < (max_points + 1) * step = omega (arith, count, close, h) in
      omega (arith, lt_of_mul-lt-mul_right step less)
    where
      above :
          (js : List ℕ)
          → All (IsStart span to step) js
          → All (λ j. bucket_start step (to - span) ≤ j) js
      above [] starts = tt
      above (j ∷ js) ((t, e, young, _), starts) =
          let mono = bucket_start_mono (to - span) t (omega (arith, young)) in
          (omega (arith, e, mono), above js starts)
