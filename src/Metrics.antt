-- ===== src/Metrics.antt =====
-- The history of container metrics and its range queries (src/metrics-history.ts).
pub mod Window
pub mod Query
pub mod Laws
pub mod Keys
pub mod Range
pub mod Points
pub mod Tests
use instacloud_oss.Base.{
  ℕ, ◌+◌, ◌-◌, String, Bool, true, false, List, [], ◌∷◌, ◌++◌, Option, none, some, get_or, Map, get,
  put, string_instance, ◌==◌, ◌&&◌, if◌then◌else◌, ltb, leb, nat_eq, any,
}

-- The floating-point numbers of the language, with what this code calls on them.
pub record Floats : Type 1 where
  pub Num : Type 0
  pub of_nat : ℕ → Num
  pub plus : Num → Num → Num
  pub divide : Num → Num → Num
  -- `Number.isFinite(n) && n > 0`
  pub is_positive : Num → Bool
  -- `Number(n.toFixed(digits))`
  pub round : Num → ℕ → Num
  -- `Math.round(n)` of a number that is not negative
  pub whole : Num → ℕ

abbrev pub retention_sec : ℕ
retention_sec = 608400

abbrev pub default_window_sec : ℕ
default_window_sec = 3600

abbrev pub default_step_sec : ℕ
default_step_sec = 60

abbrev pub max_points : ℕ
max_points = 2000

abbrev pub max_rate_gap_sec : ℕ
max_rate_gap_sec = 120

abbrev pub max_safe_integer : ℕ
max_safe_integer = 9007199254740991

-- `name`, `generation` and `running` as in the source; the readings are numbers of the language.
pub record ContainerSample (Num : Type 0) : Type 0 where
  pub name : String
  pub cpu_cores : Num
  pub mem_bytes : Num
  pub rx_bytes : Num
  pub tx_bytes : Num
  pub generation : Option ℕ
  pub running : Option Bool

-- The values stored per sample, the fields of the flat array in order.
pub record Sample (Num : Type 0) : Type 0 where
  pub t : ℕ
  pub cpu : Num
  pub mem : ℕ
  pub rx : ℕ
  pub tx : ℕ
  pub generation : ℕ
  pub running : Bool

pub record MetricsTarget : Type 0 where
  pub container : String
  pub group : String
  pub since : ℕ

abbrev pub History : Type 0 → Type 0
History Num = Map String (List (Sample Num))

abbrev pub generation_value : Option ℕ → ℕ
generation_value none = 0
generation_value (some n) = if leb n max_safe_integer then n else 0

abbrev pub last_time {ℓ} : {Num : Type ℓ} → (Num → ℕ) → List Num → Option ℕ
last_time time [] = none
last_time time (x ∷ xs) = elim (last_time time xs) [ none ↦ some (time x) | some t ↦ some t ]

-- A reading that does not follow the last one is skipped.
abbrev pub follows : Option ℕ → ℕ → Bool
follows none t = true
follows (some last) t = ltb last t

module _ {Num : Type 0} where
  unfoldable pub append_sample : Sample Num → List (Sample Num) → List (Sample Num)
  append_sample x arr = if follows (last_time (λ y. y.t) arr) x.t then arr ++ x ∷ [] else arr

  unfoldable pub drop_old : ℕ → List (Sample Num) → List (Sample Num)
  drop_old cutoff [] = []
  drop_old cutoff (x ∷ xs) =
      let rest = drop_old cutoff xs in if ltb x.t cutoff then rest else x ∷ xs

  -- The loop of `prune` on the entries of the map.
  unfoldable pub prune_from : ℕ → History Num → History Num
  prune_from cutoff [] = []
  prune_from cutoff ((name, arr) ∷ rest) =
      let kept = prune_from cutoff rest in
      elim (drop_old cutoff arr) [ [] ↦ kept | x ∷ xs ↦ (name, x ∷ xs) ∷ kept ]

  -- A cutoff before time 0 drops nothing, as one at 0 does.
  unfoldable pub prune : ℕ → History Num → History Num
  prune now_sec h = prune_from (now_sec - retention_sec) h

  abbrev pub covers : MetricsTarget → List (Sample Num) → Bool
  covers target arr = elim (last_time (λ x. x.t) arr) [
    | none ↦ false
    | some last ↦ leb target.since last
  ]

  unfoldable pub sampled : List MetricsTarget → History Num → Bool
  sampled targets h = any (λ target. covers target (get_or (get target.container h) [])) targets

module _ (floats : Floats) where
  open floats use {Num, of_nat, is_positive, round, whole}

  abbrev pub clean : Num → Num
  clean n = if is_positive n then n else of_nat 0

  -- What one row of a tick stores.
  abbrev pub sample_of : ℕ → ContainerSample Num → Sample Num
  sample_of t r = record {
    t = t;
    cpu = round (clean r.cpu_cores) 6;
    mem = whole (clean r.mem_bytes);
    rx = whole (clean r.rx_bytes);
    tx = whole (clean r.tx_bytes);
    generation = generation_value r.generation;
    running = get_or r.running (is_positive r.mem_bytes);
  }

  unfoldable pub record_rows : ℕ → List (ContainerSample Num) → History Num → History Num
  record_rows t [] h = h
  record_rows t (r ∷ rows) h = record_rows t rows (
      if r.name == ""
      then h
      else put r.name (append_sample (sample_of t r) (get_or (get r.name h) [])) h)

  -- A saved history. A container is `none` where the saved value is no array of finite numbers of
  -- the width of its version; an older version lacks the fields that stand as 0 and `false` here.
  -- Times, memory and traffic are natural numbers, as `toJSON` writes them. The code also loads a
  -- time that is negative or no whole number, which is not modelled.
  pub record PersistedHistory : Type 0 where
    pub version : ℕ
    pub samples : Map String (Option (List (Sample Num)))

  abbrev pub load_sample : ℕ → Sample Num → Sample Num
  load_sample version x = record x {
    cpu = clean x.cpu;
    generation = if nat_eq version 1 then 0 else generation_value (some x.generation);
    running = if nat_eq version 3 then x.running else ltb 0 x.mem;
  }

  -- The inner loop of `load`, onto what was kept so far.
  unfoldable pub load_samples : ℕ → List (Sample Num) → List (Sample Num) → List (Sample Num)
  load_samples version kept [] = kept
  load_samples version kept (x ∷ xs) =
      load_samples version (append_sample (load_sample version x) kept) xs

  unfoldable pub load_all : ℕ → Map String (Option (List (Sample Num))) → History Num → History Num
  load_all version [] h = h
  load_all version ((name, none) ∷ rest) h = load_all version rest h
  load_all version ((name, some arr) ∷ rest) h =
      load_all version rest
        (elim (load_samples version [] arr) [ [] ↦ h | x ∷ xs ↦ put name (x ∷ xs) h ])

  unfoldable pub load : Option PersistedHistory → ℕ → History Num
  load none now_sec = []
  load (some raw) now_sec =
      if leb 1 raw.version && leb raw.version 3
      then prune now_sec (load_all raw.version raw.samples [])
      else []

  unfoldable pub to_json : History Num → PersistedHistory
  to_json h = record { version = 3; samples = saved h }
    where
      saved : History Num → Map String (Option (List (Sample Num)))
      saved [] = []
      saved ((name, arr) ∷ rest) = (name, some arr) ∷ saved rest
