-- ===== src/Metrics/Tests.antt =====
-- Runs of the metrics history on concrete inputs, with whole numbers for the numbers of the
-- language.
use Prim.Native.Nat.{◌/◌}
use instacloud_oss.Base.{ℕ, ◌+◌, ◌≡◌, refl, true, List, [], ◌∷◌, some, none, ltb, string_instance}
use instacloud_oss.Metrics.{Floats, ContainerSample, MetricsTarget, History}
use instacloud_oss.Metrics.Window.{
  absent, once, MetricsWindow, window, error, empty_window, metrics_window, window_of, parse_step,
  split_unit, trim_end, trim_start, digits, digits_from, coarsen,
}
use instacloud_oss.Metrics.Query.{query}
use instacloud_oss.Metrics.Laws.{Operation, tick, prune_at, run, run-InOrder, InOrder}
use instacloud_oss.Metrics.Points.{answer-IsBounded, IsBounded}

abbrev whole_numbers : Floats
whole_numbers = record {
  Num = ℕ;
  of_nat = λ n. n;
  plus = λ a b. a + b;
  divide = λ a b. a / b;
  is_positive = λ n. ltb 0 n;
  round = λ n digits. n;
  whole = λ n. n;
}

abbrev reading : ℕ → ℕ → ContainerSample ℕ
reading mem rx = record {
  name = "io-web";
  cpu_cores = 1;
  mem_bytes = mem;
  rx_bytes = rx;
  tx_bytes = 0;
  generation = some 7;
  running = none;
}

-- The third tick repeats a time, and is skipped.
abbrev three_ticks : List (Operation whole_numbers)
three_ticks =
    tick 60 (reading 100 10 ∷ [])
    ∷ tick 90 (reading 200 70 ∷ [])
    ∷ tick 90 (reading 1 1 ∷ [])
    ∷ prune_at 100
    ∷ []

run-InOrder_example : InOrder (run whole_numbers three_ticks [])
run-InOrder_example = run-InOrder whole_numbers three_ticks [] tt

abbrev two_samples : History ℕ
two_samples =
    (
      "io-web",
      record { t = 60; cpu = 1; mem = 100; rx = 10; tx = 0; generation = 7; running = true }
          ∷ record { t = 90; cpu = 1; mem = 200; rx = 70; tx = 0; generation = 7; running = true }
          ∷ [],
    )
    ∷ []

abbrev web_target : MetricsTarget
web_target = record { container = "io-web"; group = "web"; since = 0 }

-- A day and a half at one second is coarsened to 65 seconds.
abbrev asked : MetricsWindow
asked = record { to = 129600; span = 129600; step = 65 }

asks :
    metrics_window
      (once (b'0' ∷ []))
      (once (b'1' ∷ b'2' ∷ b'9' ∷ b'6' ∷ b'0' ∷ b'0' ∷ []))
      (once (b'1' ∷ b's' ∷ []))
      5
    ≡ window asked
unfolding metrics_window window_of parse_step split_unit trim_end trim_start digits digits_from
    coarsen
asks = refl

-- A `from` after `to` is refused.
asks_nothing : metrics_window (once (b'9' ∷ [])) (once (b'8' ∷ [])) absent 5 ≡ error empty_window
unfolding metrics_window window_of digits digits_from
asks_nothing = refl

answer-IsBounded_example :
    IsBounded (query whole_numbers (web_target ∷ []) 129600 129600 65 two_samples)
answer-IsBounded_example =
    answer-IsBounded whole_numbers (once (b'0' ∷ []))
      (once (b'1' ∷ b'2' ∷ b'9' ∷ b'6' ∷ b'0' ∷ b'0' ∷ [])) (once (b'1' ∷ b's' ∷ [])) 5 asked
      (web_target ∷ []) two_samples asks
