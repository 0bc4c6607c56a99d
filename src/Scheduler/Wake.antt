-- ===== src/Scheduler/Wake.antt =====
-- Waking a service (`wake`, `wakeLocked` and `awaitReady` of src/scheduler.ts).
pub mod Laws
pub mod Singleflight
use instacloud_oss.Base.{
  ℕ, zero, suc, ◌+◌, ◌-◌, ◌*◌, String, Bool, true, false, List, [], ◌∷◌, Option, none, some, Map,
  get, string_instance, ◌==◌, ◌&&◌, not, if◌then◌else◌, leb, contains, get_or, is_some,
}
use instacloud_oss.Scheduler.{
  Scheduler, ServiceTarget, ServiceKind, compute, Config, WakeDoor, traffic, api, deploy,
  ContainerState, running, paused, exited, created, restarting, dead, Container, Observed,
  mark_slept, emit_wake, tell, entry, seen, touch, on_up, target_of, desires_running, default_rss,
  mib, ServiceLimits, remove,
}
use instacloud_oss.Scheduler.Snapshot.{Listing}
use instacloud_oss.Scheduler.Runtime.{Runtime, Outcome, ok, threw, read_containers}
use instacloud_oss.Scheduler.Sleep.{enqueue, release}
use instacloud_oss.Scheduler.Evict.{PassEnd, failed, evict_for_room}

-- `NoTargetError`, `ServiceStoppedError`, `NoContainerError`, the suspended and the exited error,
-- the failure to make room, `WakeTimeoutError`, and an exception of docker.
pub data WakeError : Type 0 where
  no_target service_stopped no_container service_suspended exited_during_wake : WakeError
  no_room wake_timeout docker_failed : WakeError

-- `out_of_rounds` is no outcome of the code: the model's bound on the rounds of `awaitReady`.
pub data WakeResult : Type 0 where
  woke : WakeResult
  refused : WakeError → WakeResult
  out_of_rounds : WakeResult

abbrev is_compute : ServiceKind → Bool
is_compute compute = true
is_compute _ = false

abbrev is_traffic : WakeDoor → Bool
is_traffic traffic = true
is_traffic _ = false

unfoldable pub refuses : ServiceTarget → WakeDoor → Bool
refuses t door = is_traffic door && (is_compute t.kind && not (desires_running t.desired_state))

abbrev has_ended : Option Container → Bool
has_ended none = false
has_ended (some c) = elim c.state [ exited ↦ true | dead ↦ true | _ ↦ false ]

-- What the wake reserves room for.
abbrev pub need_of : ServiceTarget → Option ℕ → ℕ
need_of t (some rss) = rss
need_of t none = elim t.limits [ some l ↦ l.memory_mb * mib | none ↦ default_rss t.kind ]

module _ (docker : Runtime) (cfg : Config) where
  module _ (t : ServiceTarget) (deadline : ℕ) where
    -- The loop of `awaitReady`; it reads docker without touching the snapshot.
    unfoldable pub await_loop : ℕ → Scheduler → WakeResult × Scheduler
    await_loop zero s = (out_of_rounds, s)
    await_loop (suc rounds) s =
        let (ready, u) = docker.probe t s in
        let (answer, v) = docker.containers u in
        let again = await_loop rounds (docker.pause v) in
        if ready then (woke, u) else elim answer [
          | threw ↦ (refused docker_failed, v)
          | ok listing ↦
              if has_ended (get t.container listing)
              then (refused exited_during_wake, v)
              else (if leb deadline v.clock then (refused wake_timeout, v) else again)
        ]

  unfoldable pub await_ready : ℕ → ServiceTarget → Scheduler → WakeResult × Scheduler
  await_ready rounds t s = await_loop t (s.clock + cfg.wake_timeout_sec * 1000) rounds s

  module _ (rounds : ℕ) (key : String) (door : WakeDoor) (owned : List String) where
    -- The end of `wakeLocked`, after the container was started; `started` is when the work began.
    finish : ℕ → ServiceTarget → Scheduler → WakeResult × Scheduler
    finish started t s =
        let (out, u) = await_ready rounds t s in
        elim out [
          | woke ↦ (woke, let up = on_up key u in tell (emit_wake key door (u.clock - started)) up)
          | refused e ↦ (refused e, u)
          | out_of_rounds ↦ (out_of_rounds, u)
        ]

    then_finish : ℕ → ServiceTarget → Outcome (Unit {0}) × Scheduler → WakeResult × Scheduler
    then_finish started t (ok _, s) = finish started t s
    then_finish started t (threw, s) = (refused docker_failed, s)

    wake_running : ℕ → ServiceTarget → Scheduler → WakeResult × Scheduler
    wake_running started t s =
        let (ready, u) = docker.probe t s in
        if ready
        then (
          woke,
          if is_some t.slept_at then tell (mark_slept key none) (touch key u) else touch key u,
        )
        else finish started t u

    after_room : ℕ → ServiceTarget → PassEnd × Scheduler → WakeResult × Scheduler
    after_room started t (failed, s) = (refused no_room, s)
    after_room started t (_, s) = then_finish started t (docker.start t.container s)

    -- Room first, then the start.
    wake_down : ℕ → ServiceTarget → Scheduler → WakeResult × Scheduler
    wake_down started t s =
        let need = need_of t (entry key s).last_rss_bytes in
        after_room started t (evict_for_room docker cfg need owned (key ∷ []) (seen key s))

    wake_listed : ℕ → ServiceTarget → ContainerState → Scheduler → WakeResult × Scheduler
    wake_listed started t running s = wake_running started t s
    wake_listed started t paused s =
        if is_traffic door
        then (refused service_suspended, s)
        else then_finish started t (docker.unpause t.container s)
    wake_listed started t restarting s = finish started t s
    wake_listed started t _ s = wake_down started t s

    wake_found : Option Observed → ℕ → ServiceTarget → Scheduler → WakeResult × Scheduler
    wake_found none started t s = (refused no_container, s)
    wake_found (some live) started t s = wake_listed started t live.state s

    wake_target : ServiceTarget → Scheduler → WakeResult × Scheduler
    wake_target t s =
        if refuses t door
        then (refused service_stopped, s)
        else (let (answer, u) = read_containers docker s in
            elim answer [
              | threw ↦ (refused docker_failed, u)
              | ok listing ↦ wake_found (get t.container listing) s.clock t u
            ])

    unfoldable pub wake_locked : Scheduler → WakeResult × Scheduler
    unfolding finish then_finish wake_running after_room wake_down wake_listed wake_found
        wake_target
    wake_locked s = elim (target_of key s) [
      | none ↦ (refused no_target, s)
      | some t ↦ wake_target t s
    ]

    -- The shared work of a wake that made the acquisition: it waits for the lock, and its entry in
    -- `wakes` goes away when it settles.
    unfoldable pub wake_work : Scheduler → WakeResult × Scheduler
    unfolding wake_locked
    wake_work s =
        let (out, u) = wake_locked (docker.granted key s) in
        let v = release key u in (out, record v { wakes = remove key v.wakes })

-- What a call of `wake` does before it first waits.
pub data WakeStart : Type 0 where
  rejected : WakeError → WakeStart
  inline joined started : WakeStart

abbrev add_wake : String → Scheduler → Scheduler
add_wake key s = record s { wakes = key ∷ remove key s.wakes }

start_target : String → WakeDoor → List String → ServiceTarget → Scheduler → WakeStart × Scheduler
start_target key door owned t s =
    if refuses t door
    then (rejected service_stopped, s)
    else (if contains key owned
        then (inline, if contains key s.wakes then s else add_wake key s)
        else (if contains key s.wakes
            then (joined, s)
            else (started, add_wake key (enqueue key s))))

unfoldable pub wake_start : String → WakeDoor → List String → Scheduler → WakeStart × Scheduler
unfolding start_target
wake_start key door owned s = elim (target_of key s) [
  | none ↦ (rejected no_target, s)
  | some t ↦ start_target key door owned t s
]
