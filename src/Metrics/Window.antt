-- ===== src/Metrics/Window.antt =====
-- The window of a metrics request (`parseStep` and `metricsWindow` of src/metrics-history.ts).
use instacloud_oss.Base.{
  ℕ, ◌+◌, ◌-◌, ◌*◌, ◌/◌, Bool, true, false, List, [], ◌∷◌, Option, none, some, ◌&&◌, ◌||◌,
  if◌then◌else◌, ltb, leb, nat_eq,
}
use instacloud_oss.Metrics.{default_window_sec, default_step_sec, max_points, max_safe_integer}

-- A text is the list of its code units.
abbrev pub is_digit : ℕ → Bool
is_digit c = leb b'0' c && leb c b'9'

-- `/^\d+$/`, and its value; the first argument is the value of the digits before.
unfoldable pub digits_from : ℕ → List ℕ → Option ℕ
digits_from n [] = some n
digits_from n (c ∷ cs) =
    let rest = digits_from (n * 10 + (c - b'0')) cs in if is_digit c then rest else none

unfoldable pub digits : List ℕ → Option ℕ
digits [] = none
digits (c ∷ cs) = digits_from 0 (c ∷ cs)

-- `\s`, which is also what `trim` removes
abbrev pub is_space : ℕ → Bool
is_space c =
    (leb 9 c && leb c 13)
    || (nat_eq c 32
        || (nat_eq c 160
            || (nat_eq c 5760
                || ((leb 8192 c && leb c 8202)
                    || (nat_eq c 8232
                        || (nat_eq c 8233
                            || (nat_eq c 8239
                                || (nat_eq c 8287 || (nat_eq c 12288 || nat_eq c 65279)))))))))

unfoldable pub trim_start : List ℕ → List ℕ
trim_start [] = []
trim_start (c ∷ cs) = let rest = trim_start cs in if is_space c then rest else c ∷ cs

unfoldable pub trim_end : List ℕ → List ℕ
trim_end [] = []
trim_end (c ∷ cs) = elim (trim_end cs) [
  | [] ↦ if is_space c then [] else c ∷ []
  | d ∷ ds ↦ c ∷ d ∷ ds
]

-- The text before a last `s`, `m` or `h`, with the seconds of that unit.
unfoldable pub split_unit : List ℕ → List ℕ × ℕ
split_unit [] = ([], 1)
split_unit (c ∷ []) =
    if nat_eq c b's'
    then ([], 1)
    else (if nat_eq c b'm' then ([], 60) else (if nat_eq c b'h' then ([], 3600) else (c ∷ [], 1)))
split_unit (c ∷ d ∷ cs) = let (rest, unit) = split_unit (d ∷ cs) in (c ∷ rest, unit)

abbrev pub safe_step : ℕ → Option ℕ
safe_step n = if leb n max_safe_integer && ltb 0 n then some n else none

unfoldable pub parse_step : List ℕ → Option ℕ
parse_step v =
    let (number, unit) = split_unit (trim_end (trim_start v)) in
    elim (digits number) [ none ↦ none | some n ↦ safe_step (n * unit) ]

-- A value of the query string: left out, once, or more than once.
pub data QueryValue : Type 0 where
  absent repeated : QueryValue
  once : List ℕ → QueryValue

pub data WindowError : Type 0 where
  given_twice not_seconds bad_step empty_window : WindowError

-- `from` is `to - span`, which is before time 0 where `to` is early and `from` was left out.
pub record MetricsWindow : Type 0 where
  pub to : ℕ
  pub span : ℕ
  pub step : ℕ

pub data WindowResult : Type 0 where
  window : MetricsWindow → WindowResult
  error : WindowError → WindowResult

abbrev pub is_repeated : QueryValue → Bool
is_repeated repeated = true
is_repeated _ = false

abbrev safe : Option ℕ → Option ℕ
safe none = none
safe (some n) = if leb n max_safe_integer then some n else none

-- `seconds`, where `none` is its `null`
abbrev pub seconds {ℓ} : {A : Type ℓ} → QueryValue → A → (ℕ → A) → Option A
seconds absent fallback given = some fallback
seconds repeated fallback given = none
seconds (once []) fallback given = some fallback
seconds (once (c ∷ cs)) fallback given = elim (safe (digits (c ∷ cs))) [
  | none ↦ none
  | some n ↦ some (given n)
]

abbrev pub step_of : QueryValue → Option ℕ
step_of absent = some default_step_sec
step_of repeated = none
step_of (once []) = some default_step_sec
step_of (once (c ∷ cs)) = parse_step (c ∷ cs)

-- `Math.ceil`
abbrev pub divide_up : ℕ → ℕ → ℕ
divide_up a b = (a + (b - 1)) / b

-- `(to - from) / step + 1 > MAX_POINTS`, with no rounding, for a positive step
unfoldable pub coarsen : ℕ → ℕ → ℕ
coarsen span step =
    if ltb (max_points * step) (span + step) then divide_up span (max_points - 1) else step

-- A `from` that was given, and otherwise `to - DEFAULT_WINDOW_SEC`; `none` where `from >= to`.
abbrev pub span_of : ℕ → Option ℕ → Option ℕ
span_of to none = some default_window_sec
span_of to (some from) = if leb to from then none else some (to - from)

unfoldable pub window_of : ℕ → Option ℕ → Option ℕ → WindowResult
window_of to from none = error bad_step
window_of to from (some step) = elim (span_of to from) [
  | none ↦ error empty_window
  | some span ↦ window (record { to = to; span = span; step = coarsen span step })
]

unfoldable pub metrics_window : QueryValue → QueryValue → QueryValue → ℕ → WindowResult
unfolding window_of
metrics_window from_q to_q step_q now_sec =
    if is_repeated from_q || (is_repeated to_q || is_repeated step_q)
    then error given_twice
    else elim (seconds to_q now_sec (λ n. n)) [
      | none ↦ error not_seconds
      | some to ↦ elim (seconds from_q none (λ n. some n)) [
        | none ↦ error not_seconds
        | some from ↦ window_of to from (step_of step_q)
      ]
    ]
