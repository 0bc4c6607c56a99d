-- ===== src/Scheduler/Sleep/Keeps.antt =====
-- What every awaited call keeps of the engine's services, `sleep` keeps.
use instacloud_oss.Base.{
  ℕ, ◌≡◌, refl, String, List, Option, none, some, string_instance, contains, Option-cases, inl, inr,
  Bool-cases, ltb,
}
use instacloud_oss.Scheduler.{
  Scheduler, ServiceTarget, Config, SleepReason, on_asleep, set_cached, forget_address_of,
  target_of, op_count, Observed, ContainerState, running, paused, exited, created, restarting, dead,
}
use instacloud_oss.Scheduler.Runtime.{Runtime, Outcome-cases, read_containers}
use instacloud_oss.Scheduler.Sleep.{
  sleep, sleep_locked, stop_target, stop_listed, stop_running, enqueue, release, grace_for,
}

pub record Keeps (P : List ServiceTarget → Type 0) (docker : Runtime) : Type 0 where
  pub containers : (s : Scheduler) → P s.targets → P (docker.containers s).1.targets
  pub stop : (c : String) (n : ℕ) (s : Scheduler) → P s.targets → P (docker.stop c n s).1.targets
  pub turn : (s : Scheduler) → P s.targets → P (docker.turn s).targets

module _ (P : List ServiceTarget → Type 0) (docker : Runtime) (keeps : Keeps P docker) where
  pub read_containers-keeps : (s : Scheduler) → P s.targets → P (read_containers docker s).1.targets
  unfolding read_containers
  read_containers-keeps s h = elim (Outcome-cases (docker.containers s).0) [
    | inl e ↦ rw (e, read_containers) (keeps.containers s h)
    | inr (l, e) ↦ rw (e, read_containers) (keeps.turn _ (keeps.containers s h))
  ]

  module _ (cfg : Config) (key : String) (reason : SleepReason) where
    stop_running-keeps :
        (t : ServiceTarget) (s : Scheduler)
        → P s.targets
        → P (stop_running docker cfg key reason t s).1.targets
    unfolding stop_running on_asleep set_cached forget_address_of
    stop_running-keeps t s h =
        elim (Outcome-cases (docker.stop t.container (grace_for cfg t reason) s).0) [
          | inl e ↦ rw (e, stop_running) (keeps.stop t.container (grace_for cfg t reason) s h)
          | inr (u, e) ↦ rw (e, stop_running) (keeps.stop t.container (grace_for cfg t reason) s h)
        ]

    stop_live-keeps :
        (state : ContainerState) (live : Observed) (t : ServiceTarget) (s : Scheduler)
        → live.state ≡ state
        → P s.targets
        → P (stop_listed docker cfg key reason (some live) t s).1.targets
    unfolding stop_listed on_asleep set_cached forget_address_of
    stop_live-keeps running live t s e h = rw (e, stop_listed) (stop_running-keeps t s h)
    stop_live-keeps created live t s e h = rw (e, stop_listed) h
    stop_live-keeps paused live t s e h = rw (e, stop_listed) h
    stop_live-keeps exited live t s e h = rw (e, stop_listed) h
    stop_live-keeps restarting live t s e h = rw (e, stop_listed) h
    stop_live-keeps dead live t s e h = rw (e, stop_listed) h

    stop_listed-keeps :
        (o : Option Observed) (t : ServiceTarget) (s : Scheduler)
        → P s.targets
        → P (stop_listed docker cfg key reason o t s).1.targets
    unfolding stop_listed
    stop_listed-keeps none t s h = h
    stop_listed-keeps (some live) t s h = stop_live-keeps live.state live t s refl h

    stop_target-keeps :
        (t : ServiceTarget) (s : Scheduler)
        → P s.targets
        → P (stop_target docker cfg key reason t s).1.targets
    unfolding stop_target
    stop_target-keeps t s h = elim (Outcome-cases (read_containers docker s).0) [
      | inl e ↦ rw (e, stop_target) (read_containers-keeps s h)
      | inr (l, e) ↦ rw (e, stop_target) (stop_listed-keeps _ t _ (read_containers-keeps s h))
    ]

    sleep_locked-keeps :
        (s : Scheduler) → P s.targets → P (sleep_locked docker cfg key reason s).1.targets
    unfolding sleep_locked
    sleep_locked-keeps s h = elim (Option-cases (target_of key s)) [
      | inl e ↦ rw (e, sleep_locked) h
      | inr (t, e) ↦ rw (e, sleep_locked) (stop_target-keeps t _ h)
    ]

    pub sleep-keeps :
        (owned : List String) (s : Scheduler)
        → P s.targets
        → P (sleep docker cfg key reason owned s).1.targets
    unfolding sleep enqueue release
    sleep-keeps owned s h = elim (Bool-cases (contains key owned)) [
      | inl e ↦ rw (e, sleep) (sleep_locked-keeps s h)
      | inr e ↦ elim (Bool-cases (ltb 0 (op_count key s))) [
        | inl b ↦ rw (e, b, sleep) h
        | inr b ↦ rw (e, b, sleep) (sleep_locked-keeps _ (keeps.turn _ h))
      ]
    ]
