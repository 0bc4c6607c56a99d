-- ===== src/Scheduler/Sleep/Laws.antt =====
-- When the sweep may stop a service, and what `sleep` does on each path.
use instacloud_oss.Base.{
  ℕ, suc, ◌+◌, ◌*◌, ◌≡◌, ◌≤◌, ◌<◌, refl, String, Bool, true, false, ◌∷◌, Option, none, some, Map,
  get, put, get-put, get-del, string_instance, eq_iff, arith, contains, Option-cases, inl, inr,
  get-put_self, get-del_self, ◌↔◌, ◌⊎◌,
}
use instacloud_oss.Scheduler.{
  Scheduler, ServiceTarget, running, created, Config, SleepReason, Observed, entry, touch, remove,
  desires_running, busy, op_count, target_of, is_running,
}
use instacloud_oss.Scheduler.Laws.{contains-remove_self}
use instacloud_oss.Scheduler.Snapshot.{observed_running}
use instacloud_oss.Scheduler.Runtime.{Runtime, Outcome, ok, threw, Outcome-cases, read_containers}
use instacloud_oss.Scheduler.Sleep.{
  may_idle, idled_out, is_idle_candidate, enqueue, release, stop_running, stop_listed, stop_target,
  sleep_locked, grace_for,
}

-- Every condition of the idle rule, in words of its own.
pub record IsIdle (cfg : Config) (t : ServiceTarget) (now : ℕ) (s : Scheduler) : Type 0 where
  pub observed : observed_running cfg t.container now s ≡ true
  pub may_sleep : t.always_on ≡ false
  pub wanted : desires_running t.desired_state ≡ true
  pub timed : 0 < t.idle_sec
  pub free : busy t.key s ≡ false
  pub inactive : (entry t.key s).last_active_at + t.idle_sec * 1000 ≤ now
  pub grown : t.created_at + cfg.create_grace_sec * 1000 ≤ now

-- A service is an idle candidate exactly when all conditions of the rule hold: docker showed it
-- running lately, it is not always-on and wanted running, it has an idle window, no operation is in
-- flight, and both its idle window and its create grace have passed.
pub is_idle_candidate_iff :
    (cfg : Config) (t : ServiceTarget) (now : ℕ) (s : Scheduler)
    → ((is_idle_candidate cfg t now s).0 ≡ true) ↔ IsIdle cfg t now s
unfolding is_idle_candidate may_idle idled_out
is_idle_candidate_iff cfg t now s = ground arith

-- A service that the ledger does not know is no candidate: it is given one full idle window.
pub first_sight_waits :
    (cfg : Config) (t : ServiceTarget) (s : Scheduler)
    → get t.key s.ledger ≡ none
    → (is_idle_candidate cfg t s.clock s).0 ≡ false
unfolding is_idle_candidate may_idle idled_out
first_sight_waits cfg t s h = ground arith

-- A request keeps a service from being a candidate for a full idle window after it.
pub touch_postpones :
    (cfg : Config) (t : ServiceTarget) (now : ℕ) (s : Scheduler)
    → now < s.clock + t.idle_sec * 1000
    → (is_idle_candidate cfg t now (touch t.key s)).0 ≡ false
unfolding is_idle_candidate may_idle idled_out touch
touch_postpones cfg t now s h =
    ground
      (arith, get-put_self t.key (record (entry t.key s) { last_active_at = s.clock }) s.ledger)

-- The lock's count of every key is as before once an operation that was enqueued is released.
pub op_count-release-enqueue :
    (key j : String) (s : Scheduler) → op_count j (release key (enqueue key s)) ≡ op_count j s
unfolding release enqueue
op_count-release-enqueue key j s =
    rw (get-put_self key (suc (op_count key s)) s.ops, release)
      (ground (
        arith,
        eq_iff key j,
        get-put key j (suc (op_count key s)) s.ops,
        get-put key j (op_count key s) (put key (suc (op_count key s)) s.ops),
        get-del key j (put key (suc (op_count key s)) s.ops),
      ))

module _ (docker : Runtime) (cfg : Config) (key : String) (reason : SleepReason) where
  abbrev pub marked : Scheduler → Scheduler
  marked s = record s { sleeping = key ∷ remove key s.sleeping }

  -- Why `sleep` may answer true: docker listed the container under the lock, and either it ran and
  -- `docker stop` succeeded with the grace of the reason, or it was created and never started.
  pub record WentToSleep (s : Scheduler) : Type 0 where
    pub target : ServiceTarget
    pub found : target_of key s ≡ some target
    pub listing : Map String Observed
    pub answered : (read_containers docker (marked s)).0 ≡ ok listing
    pub live : Observed
    pub listed : get target.container listing ≡ some live
    pub cause :
        (live.state ≡ created)
        ⊎ (live.state ≡ running)
          × ((docker.stop target.container
                (grace_for cfg target reason)
                (read_containers docker (marked s)).1).0
              ≡ ok tt)

  stop_listed-true :
      (o : Option Observed) (t : ServiceTarget) (s : Scheduler)
      → (stop_listed docker cfg key reason o t s).0 ≡ ok true
      → (live : Observed) × (o ≡ some live)
        × ((live.state ≡ created)
            ⊎ (live.state ≡ running)
              × ((docker.stop t.container (grace_for cfg t reason) s).0 ≡ ok tt))
  unfolding stop_listed stop_running
  stop_listed-true none t s h = ground arith
  stop_listed-true (some live) t s h = (live, refl, ground arith)

  -- `sleep` answers true only for a service that went to sleep: it never claims a stop that docker
  -- did not carry out, nor one of a container that docker did not list.
  pub sleep_locked-true :
      (s : Scheduler) → (sleep_locked docker cfg key reason s).0 ≡ ok true → WentToSleep s
  unfolding sleep_locked
  sleep_locked-true s h = elim (Option-cases (target_of key s)) [
    | inl e ↦ ground (arith, e)
    | inr (t, e) ↦ elim (Outcome-cases (read_containers docker (marked s)).0) [
      | inl a ↦ ground (arith, a, e)
      | inr (l, a) ↦
          let (live, listed, cause) =
            stop_listed-true (get t.container l) t (read_containers docker (marked s)).1
              (ground (arith, e, a)) in
          record {
            target = t;
            found = e;
            listing = l;
            answered = a;
            live = live;
            listed = listed;
            cause = cause;
          }
    ]
  ]

  -- However the work under the lock ends, the service is no longer marked as going to sleep.
  pub sleep_locked-unmarks :
      (s : Scheduler) (t : ServiceTarget)
      → target_of key s ≡ some t
      → contains key (sleep_locked docker cfg key reason s).1.sleeping ≡ false
  unfolding sleep_locked
  sleep_locked-unmarks s t e =
      rw (e, sleep_locked)
        (contains-remove_self key (stop_target docker cfg key reason t (marked s)).1.sleeping)

  -- A stop that fails is an exception, and the snapshot forgets the container: no later decision of
  -- the pass rests on what it said.
  pub failed_stop_forgets :
      (s : Scheduler) (t : ServiceTarget) (l : Map String Observed) (live : Observed)
      → target_of key s ≡ some t
      → let (answer, u) = read_containers docker (marked s) in
        answer ≡ ok l
        → get t.container l ≡ some live
        → live.state ≡ running
        → (docker.stop t.container (grace_for cfg t reason) u).0 ≡ threw
        → let (out, v) = sleep_locked docker cfg key reason s in
          (out ≡ threw) × (get t.container v.state_cache ≡ none) × (contains key v.sleeping ≡ false)
  unfolding sleep_locked
  failed_stop_forgets s t l live e a listed up failed =
      let (out, u) =
        docker.stop t.container (grace_for cfg t reason) (read_containers docker (marked s)).1 in
      ground (
        arith,
        e,
        a,
        listed,
        up,
        failed,
        get-del_self t.container u.state_cache,
        contains-remove_self key u.sleeping,
      )

abbrev is_up : Option Observed → Bool
is_up none = false
is_up (some o) = is_running o.state

module _ (docker : Runtime) (cfg : Config) (key : String) (reason : SleepReason) where
  -- A container that docker does not list as running is never stopped: what `docker stop` would
  -- have done makes no difference to the result or to the state.
  pub unlisted_untouched :
      (stop : String → ℕ → Scheduler → Outcome (Unit {0}) × Scheduler) (s : Scheduler)
      (t : ServiceTarget) (l : Map String Observed)
      → target_of key s ≡ some t
      → (read_containers docker (marked docker cfg key reason s)).0 ≡ ok l
      → is_up (get t.container l) ≡ false
      → sleep_locked (record docker { stop = stop }) cfg key reason s
        ≡ sleep_locked docker cfg key reason s
  unfolding sleep_locked read_containers
  unlisted_untouched stop s t l e a down = ground (arith, e, a, down)
