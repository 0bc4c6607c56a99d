-- ===== src/Scheduler/Runtime.antt =====
-- The docker seam of the scheduler, and its asynchronous reads (src/scheduler.ts). Docker and the
-- other tasks of the daemon are a parameter: an awaited call takes the state in which it was made
-- and answers its result with the state in which the code goes on, which holds whatever the rest of
-- the daemon did meanwhile, the passing of time included.
use instacloud_oss.Base.{
  ℕ, String, Bool, true, false, [], ◌∷◌, Option, Map, string_instance, ◌==◌, if◌then◌else◌, ◌≡◌,
  refl, ◌⊎◌, inl, inr,
}
use instacloud_oss.Scheduler.{
  Scheduler, ServiceTarget, Observed, Memory, warn_unreadable, forget_if_changed, tell,
}
use instacloud_oss.Scheduler.Snapshot.{Listing, absorb}

-- A result, or an exception.
pub data Outcome {ℓ} (A : Type ℓ) : Type ℓ where
  ok : A → Outcome A
  threw : Outcome A

pub Outcome-cases {ℓ} : {A : Type ℓ} (o : Outcome A) → (o ≡ threw) ⊎ ((a : A) × (o ≡ ok a))
Outcome-cases (ok a) = inr (a, refl)
Outcome-cases threw = inl refl

pub record Runtime : Type 0 where
  pub containers : Scheduler → Outcome Listing × Scheduler
  pub stats : Scheduler → Outcome (Map String ℕ) × Scheduler
  pub memory : Scheduler → Option Memory
  pub start : String → Scheduler → Outcome (Unit {0}) × Scheduler
  pub stop : String → ℕ → Scheduler → Outcome (Unit {0}) × Scheduler
  pub unpause : String → Scheduler → Outcome (Unit {0}) × Scheduler
  pub probe : ServiceTarget → Scheduler → Bool × Scheduler
  -- An `await` of something that has settled, and the wait for a lock that is held.
  pub turn : Scheduler → Scheduler
  pub granted : String → Scheduler → Scheduler
  -- `sleepFor(PROBE_INTERVAL_MS)`
  pub pause : Scheduler → Scheduler

module _ (docker : Runtime) where
  unfoldable pub read_containers : Scheduler → Outcome (Map String Observed) × Scheduler
  read_containers s =
      let (answer, t) = docker.containers s in
      elim answer [
        | threw ↦ (threw, t)
        | ok containers ↦
            let next = absorb containers s.clock t.state_cache in
            (ok next, docker.turn (record t { state_cache = next }))
      ]

  -- Tell the address cache the id of every container that has one.
  forget_changed : Map String Observed → Scheduler → Scheduler
  forget_changed [] s = s
  forget_changed ((name, o) ∷ rest) s =
      forget_changed rest (if o.id == "" then s else tell (forget_if_changed name o.id) s)

  unfoldable pub refresh_states : Scheduler → Scheduler
  unfolding forget_changed read_containers
  refresh_states s =
      let (answer, t) = read_containers s in
      elim answer [
        | threw ↦
            if t.states_readable
            then tell warn_unreadable (record t { states_readable = false })
            else t
        | ok containers ↦ forget_changed containers (record t { states_readable = true })
      ]
