-- ===== src/Scheduler/Wake/Laws.antt =====
-- What a wake establishes, when it is refused, and that its readiness wait ends.
use instacloud_oss.Base.{
  ℕ, zero, suc, ◌+◌, ◌*◌, ◌≡◌, ◌≢◌, ◌≤◌, ◌<◌, refl, String, true, false, List, some, get,
  get-put_self, string_instance, arith, Option-cases, inl, inr, Bool-cases,
}
use instacloud_oss.Scheduler.{
  Scheduler, ServiceTarget, compute, Config, WakeDoor, traffic, ContainerState, running, paused,
  restarting, target_of, desires_running, on_up, set_cached, forget_address_of, entry,
}
use instacloud_oss.Scheduler.Runtime.{Runtime, Outcome, ok, threw, Outcome-cases, read_containers}
use instacloud_oss.Scheduler.Evict.{PassEnd, failed, is_victim, is_quiet}
use instacloud_oss.Scheduler.Wake.{
  WakeError, service_stopped, no_container, docker_failed, no_room, service_suspended, after_room,
  is_traffic, WakeResult, woke, refused, out_of_rounds, refuses, await_loop, await_ready, finish,
  then_finish, wake_running, wake_down, wake_listed, wake_found, wake_target, wake_locked, rejected,
  wake_start,
}

-- Traffic never wakes a compute service that the developer stopped or suspended, neither at the
-- door nor under the lock; nothing changes and docker is not asked.
pub traffic_refused :
    (docker : Runtime) (cfg : Config) (rounds : ℕ) (key : String) (owned : List String)
    (s : Scheduler) (t : ServiceTarget)
    → target_of key s ≡ some t
    → t.kind ≡ compute
    → desires_running t.desired_state ≡ false
    → (wake_start key traffic owned s ≡ (rejected service_stopped, s))
      × (wake_locked docker cfg rounds key traffic owned s ≡ (refused service_stopped, s))
unfolding wake_start wake_locked refuses
traffic_refused docker cfg rounds key owned s t e c d =
    (ground (arith, e, c, d), ground (arith, e, c, d))

-- A service that just came up is no eviction victim before its protection has passed.
pub on_up_protects :
    (cfg : Config) (exclude tried : List String) (t : ServiceTarget) (now : ℕ) (s : Scheduler)
    → now < s.clock + cfg.wake_protect_sec * 1000
    → (is_victim cfg exclude tried t now (on_up t.key s)).0 ≡ false
unfolding is_victim is_quiet on_up set_cached forget_address_of
on_up_protects cfg exclude tried t now s h = ground (
  arith,
  get-put_self t.key (record (entry t.key s) { last_active_at = s.clock; woke_at = some s.clock })
      s.ledger,
)

module _ (docker : Runtime) (cfg : Config) where
  -- Some probe of the service answered that it accepts connections.
  abbrev pub Answered : ServiceTarget → Type 0
  Answered t = (x : Scheduler) × ((docker.probe t x).0 ≡ true)

  await_loop-woke :
      (t : ServiceTarget) (deadline rounds : ℕ) (s : Scheduler)
      → (await_loop docker cfg t deadline rounds s).0 ≡ woke
      → Answered t
  unfolding await_loop
  await_loop-woke t deadline zero s h = cc
  await_loop-woke t deadline (suc rounds) s h = elim (Bool-cases (docker.probe t s).0) [
    | inl e ↦ (s, e)
    | inr e ↦
        let u = (docker.probe t s).1 in
        await_loop-woke t deadline rounds (docker.pause (docker.containers u).1) (ground (arith, e))
  ]

  module _ (rounds : ℕ) (key : String) (door : WakeDoor) (owned : List String) where
    -- What holds of every refusal, of a probe that succeeds and of the readiness wait, holds of the
    -- result of a wake.
    module _ (R : WakeResult → Type 0) (t : ServiceTarget)
        (refused_ok : (e : WakeError) → R (refused e))
        (probe_ok : (s : Scheduler) → (docker.probe t s).0 ≡ true → R woke)
        (await_ok : (s : Scheduler) → R (await_ready docker cfg rounds t s).0) where
      finish_rule :
          (started : ℕ) (s : Scheduler) → R (finish docker cfg rounds key door owned started t s).0
      unfolding finish
      finish_rule started s = after (await_ready docker cfg rounds t s).0 refl
        where
          after :
              (o : WakeResult)
              → (await_ready docker cfg rounds t s).0 ≡ o
              → R (finish docker cfg rounds key door owned started t s).0
          after woke e = rw (e, finish) (rw e at (await_ok s))
          after (refused x) e = rw (e, finish) (refused_ok x)
          after out_of_rounds e = rw (e, finish) (rw e at (await_ok s))

      then_finish_rule :
          (started : ℕ) (p : Outcome (Unit {0}) × Scheduler)
          → R (then_finish docker cfg rounds key door owned started t p).0
      unfolding then_finish
      then_finish_rule started (ok u, s) = finish_rule started s
      then_finish_rule started (threw, s) = refused_ok docker_failed

      wake_running_rule :
          (started : ℕ) (s : Scheduler)
          → R (wake_running docker cfg rounds key door owned started t s).0
      unfolding wake_running
      wake_running_rule started s = elim (Bool-cases (docker.probe t s).0) [
        | inl e ↦ rw (e, wake_running) (probe_ok s e)
        | inr e ↦ rw (e, wake_running) (finish_rule started (docker.probe t s).1)
      ]

      after_room_rule :
          (started : ℕ) (p : PassEnd × Scheduler)
          → R (after_room docker cfg rounds key door owned started t p).0
      unfolding after_room
      after_room_rule started (failed, s) = refused_ok no_room
      after_room_rule started (_, s) = then_finish_rule started (docker.start t.container s)

      wake_listed_rule :
          (started : ℕ) (state : ContainerState) (s : Scheduler)
          → R (wake_listed docker cfg rounds key door owned started t state s).0
      unfolding wake_listed wake_down
      wake_listed_rule started running s = wake_running_rule started s
      wake_listed_rule started paused s = elim (Bool-cases (is_traffic door)) [
        | inl e ↦ rw (e, wake_listed) (refused_ok service_suspended)
        | inr e ↦ rw (e, wake_listed) (then_finish_rule started (docker.unpause t.container s))
      ]
      wake_listed_rule started restarting s = finish_rule started s
      wake_listed_rule started _ s = after_room_rule started _

      wake_target_rule : (s : Scheduler) → R (wake_target docker cfg rounds key door owned t s).0
      unfolding wake_target wake_found
      wake_target_rule s = elim (Bool-cases (refuses t door)) [
        | inl e ↦ rw (e, wake_target) (refused_ok service_stopped)
        | inr e ↦ elim (Outcome-cases (read_containers docker s).0) [
          | inl a ↦ rw (e, a, wake_target) (refused_ok docker_failed)
          | inr (l, a) ↦
              rw (e, a, wake_target)
                (elim (Option-cases (get t.container l)) [
                  | inl g ↦ rw (g, wake_found) (refused_ok no_container)
                  | inr (live, g) ↦ rw (g, wake_found) (wake_listed_rule s.clock live.state _)
                ])
        ]
      ]

    -- A wake that succeeds is that of a known service, and a probe of it answered: success is never
    -- reported for a container that only started.
    pub wake_locked-woke :
        (s : Scheduler)
        → (wake_locked docker cfg rounds key door owned s).0 ≡ woke
        → (t : ServiceTarget) × (target_of key s ≡ some t) × Answered t
    unfolding wake_locked
    wake_locked-woke s h = elim (Option-cases (target_of key s)) [
      | inl e ↦ ground (arith, e)
      | inr (t, e) ↦ (
        t,
        e,
        wake_target_rule (λ r. r ≡ woke → Answered t) t (λ x k. cc) (λ u k _. (u, k))
            (λ u.
              unfold await_ready in
              await_loop-woke t (u.clock + cfg.wake_timeout_sec * 1000) rounds u)
            s (ground (arith, e)),
      )
    ]

  -- Time does not run backwards while a wake waits, and a pause takes as long as it says.
  pub record TimePasses : Type 0 where
    pub probing : (t : ServiceTarget) (s : Scheduler) → s.clock ≤ (docker.probe t s).1.clock
    pub reading : (s : Scheduler) → s.clock ≤ (docker.containers s).1.clock
    pub pausing : (s : Scheduler) → s.clock + 250 ≤ (docker.pause s).clock

  module _ (passes : TimePasses) where
    await_loop_ends :
        (t : ServiceTarget) (deadline rounds : ℕ) (s : Scheduler)
        → 0 < rounds
        → deadline + 250 ≤ s.clock + 250 * rounds
        → (await_loop docker cfg t deadline rounds s).0 ≢ out_of_rounds
    unfolding await_loop
    await_loop_ends t deadline zero s h k = absurd (omega arith)
    await_loop_ends t deadline (suc rounds) s h k = elim (Bool-cases (docker.probe t s).0) [
      | inl e ↦ rw (e, await_loop) (cc)
      | inr e ↦
          let u = (docker.probe t s).1 in
          let v = (docker.containers u).1 in
          let later = await_loop_ends t deadline rounds (docker.pause v) in
          ground (arith, e, later, passes.probing t s, passes.reading u, passes.pausing v)
    ]

    -- A wake always comes to an end of the code's own: four rounds of the readiness wait for each
    -- second of the timeout, and one more, are enough.
    pub wake_locked_ends :
        (rounds : ℕ) (key : String) (door : WakeDoor) (owned : List String) (s : Scheduler)
        → 4 * cfg.wake_timeout_sec < rounds
        → (wake_locked docker cfg rounds key door owned s).0 ≢ out_of_rounds
    unfolding wake_locked
    wake_locked_ends rounds key door owned s h = elim (Option-cases (target_of key s)) [
      | inl e ↦ rw (e, wake_locked) (cc)
      | inr (t, e) ↦
          rw (e, wake_locked)
            (wake_target_rule rounds key door owned (λ r. r ≢ out_of_rounds) t (λ x. cc) (λ u _. cc)
              (λ u.
                unfold await_ready in
                await_loop_ends t (u.clock + cfg.wake_timeout_sec * 1000) rounds u (omega arith)
                  (omega arith))
              s)
    ]
