-- ===== src/Metrics/Query.antt =====
-- Range queries over the history (`query`, `differenceable` and `liveSeries` of
-- src/metrics-history.ts).
use instacloud_oss.Base.{
  ℕ, ◌+◌, ◌-◌, ◌*◌, ◌/◌, String, Bool, true, false, List, [], ◌∷◌, ◌++◌, map, Option, none, some,
  get_or, Map, get, put, nat_instance, string_instance, ◌==◌, ◌&&◌, ◌||◌, not, if◌then◌else◌, ltb,
  leb, nat_eq, filter,
}
use instacloud_oss.Metrics.{
  Floats, Sample, ContainerSample, MetricsTarget, History, max_rate_gap_sec, clean,
}

abbrev pub bool_eq : Bool → Bool → Bool
bool_eq true b = b
bool_eq false b = not b

-- Ascending numbers by insertion.
unfoldable pub insert : ℕ → List ℕ → List ℕ
insert k [] = k ∷ []
insert k (j ∷ js) = if leb k j then k ∷ j ∷ js else j ∷ insert k js

unfoldable pub sort : List ℕ → List ℕ
sort [] = []
sort (k ∷ ks) = insert k (sort ks)

abbrev pub keys {ℓ} : {V : Type ℓ} → Map ℕ V → List ℕ
keys [] = []
keys ((k, v) ∷ m) = k ∷ keys m

-- Whether a network rate may be differenced from `prev` to `cur`.
unfoldable pub differenceable : {Num : Type 0} → Sample Num → Sample Num → Bool
differenceable prev cur =
    nat_eq cur.generation prev.generation
    && (bool_eq cur.running prev.running
        && (ltb prev.t cur.t
            && (leb (cur.t - prev.t) max_rate_gap_sec
                && (leb prev.rx cur.rx && leb prev.tx cur.tx))))

-- `!(t < from || t > to || t < since)`, where `from` is `to - span` and may lie before time 0
unfoldable pub in_window : ℕ → ℕ → ℕ → ℕ → Bool
in_window span to since t = not (ltb (t + span) to || (ltb to t || ltb t since))

-- The label of the bucket of a time: its start.
abbrev pub bucket_start : ℕ → ℕ → ℕ
bucket_start step t = t / step * step

pub record Series (Num : Type 0) : Type 0 where
  pub name : String
  pub unit : String
  pub group : String
  pub instance_name : String
  pub points : List (ℕ × Num)

module _ (floats : Floats) where
  open floats use {Num, of_nat, plus, divide, round, whole}

  pub record Bucket : Type 0 where
    pub cpu_sum : Num
    pub mem_sum : Num
    pub count : ℕ
    pub rx_sum : Num
    pub tx_sum : Num
    pub rates : ℕ

  abbrev empty_bucket : Bucket
  empty_bucket = record {
    cpu_sum = of_nat 0;
    mem_sum = of_nat 0;
    count = 0;
    rx_sum = of_nat 0;
    tx_sum = of_nat 0;
    rates = 0;
  }

  abbrev add_reading : Sample Num → Bucket → Bucket
  add_reading x b = record b {
    cpu_sum = plus b.cpu_sum x.cpu;
    mem_sum = plus b.mem_sum (of_nat x.mem);
    count = b.count + 1;
  }

  abbrev add_rate : Sample Num → Sample Num → Bucket → Bucket
  add_rate prev x b = record b {
    rx_sum = plus b.rx_sum (divide (of_nat (x.rx - prev.rx)) (of_nat (x.t - prev.t)));
    tx_sum = plus b.tx_sum (divide (of_nat (x.tx - prev.tx)) (of_nat (x.t - prev.t)));
    rates = b.rates + 1;
  }

  -- `i >= FIELDS && arr[i - FIELDS] >= since && differenceable(arr, i)`
  abbrev pub rated : ℕ → Option (Sample Num) → Sample Num → Bool
  rated since none x = false
  rated since (some prev) x = leb since prev.t && differenceable prev x

  abbrev pub add_sample : ℕ → Option (Sample Num) → Sample Num → Bucket → Bucket
  add_sample since none x b = add_reading x b
  add_sample since (some prev) x b =
      if rated since (some prev) x then add_rate prev x (add_reading x b) else add_reading x b

  module _ (span to step since : ℕ) where
    -- The loop over the samples of one container; the first argument is the sample before.
    unfoldable pub fill : Option (Sample Num) → List (Sample Num) → Map ℕ Bucket → Map ℕ Bucket
    fill prev [] buckets = buckets
    fill prev (x ∷ xs) buckets =
        let key = bucket_start step x.t in
        fill (some x) xs (
          if in_window span to since x.t
          then put key (add_sample since prev x (get_or (get key buckets) empty_bucket)) buckets
          else buckets)

  abbrev pub cpu_value : Bucket → Num
  cpu_value b = round (divide b.cpu_sum (of_nat b.count)) 6

  abbrev pub mem_value : Bucket → Num
  mem_value b = of_nat (whole (divide b.mem_sum (of_nat b.count)))

  abbrev pub rx_value : Bucket → Num
  rx_value b = round (divide b.rx_sum (of_nat b.rates)) 3

  abbrev pub tx_value : Bucket → Num
  tx_value b = round (divide b.tx_sum (of_nat b.rates)) 3

  abbrev pub at : Map ℕ Bucket → ℕ → Bucket
  at buckets k = get_or (get k buckets) empty_bucket

  abbrev pub points_of : (Bucket → Num) → Map ℕ Bucket → List ℕ → List (ℕ × Num)
  points_of value buckets ks = map (λ k. (k, value (at buckets k))) ks

  module _ (target : MetricsTarget) (buckets : Map ℕ Bucket) where
    abbrev series : String → String → (Bucket → Num) → List ℕ → Series Num
    series name unit value ks = record {
      name = name;
      unit = unit;
      group = target.group;
      instance_name = target.container;
      points = points_of value buckets ks;
    }

    -- A bucket with only the first sample of its container has nothing to difference against.
    abbrev pub has_rate : ℕ → Bool
    has_rate k = ltb 0 (at buckets k).rates

    abbrev pub rate_series : List ℕ → List (Series Num)
    rate_series [] = []
    rate_series (k ∷ ks) =
        series "egress_bytes_rate" "bytes/s" tx_value (k ∷ ks)
        ∷ series "ingress_bytes_rate" "bytes/s" rx_value (k ∷ ks)
        ∷ []

    abbrev pub all_series : List ℕ → List (Series Num)
    all_series [] = []
    all_series (k ∷ ks) =
        series "cpu_cores" "vCPU" cpu_value (k ∷ ks)
        ∷ series "memory_used_bytes" "bytes" mem_value (k ∷ ks)
        ∷ rate_series (filter has_rate (k ∷ ks))

  -- The series of one target from its buckets.
  unfoldable pub series_from : MetricsTarget → Map ℕ Bucket → List (Series Num)
  series_from target buckets = all_series target buckets (sort (keys buckets))

  unfoldable pub query : List MetricsTarget → ℕ → ℕ → ℕ → History Num → List (Series Num)
  query [] span to step h = []
  query (target ∷ targets) span to step h =
      elim (get target.container h) [
        | none ↦ []
        | some arr ↦ series_from target (fill span to step target.since none arr [])
      ]
      ++ query targets span to step h

  -- `new Map(samples.map((s) => [s.name, s]))` keeps the last sample of a name.
  unfoldable pub last_named : String → List (ContainerSample Num) → Option (ContainerSample Num)
  last_named name [] = none
  last_named name (x ∷ xs) = elim (last_named name xs) [
    | some y ↦ some y
    | none ↦ if x.name == name then some x else none
  ]

  abbrev live_one : MetricsTarget → ℕ → String → String → Num → Series Num
  live_one target now_sec name unit value = record {
    name = name;
    unit = unit;
    group = target.group;
    instance_name = target.container;
    points = (now_sec, value) ∷ [];
  }

  unfoldable pub live_series :
      List (ContainerSample Num) → List MetricsTarget → ℕ → List (Series Num)
  unfolding last_named
  live_series samples [] now_sec = []
  live_series samples (target ∷ targets) now_sec =
      elim (last_named target.container samples) [
        | none ↦ []
        | some x ↦
            live_one target now_sec "cpu_cores" "vCPU" (round (clean floats x.cpu_cores) 6)
            ∷ live_one target now_sec "memory_used_bytes" "bytes"
                (of_nat (whole (clean floats x.mem_bytes)))
            ∷ []
      ]
      ++ live_series samples targets now_sec
