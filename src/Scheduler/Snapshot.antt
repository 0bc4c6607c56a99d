-- ===== src/Scheduler/Snapshot.antt =====
-- What the scheduler believes of the containers (src/scheduler.ts): the fold of a full docker
-- listing into the snapshot, the runtime state that the lanes and the health route read, and how
-- old an observation may be and still stop a container.
pub mod Laws
pub mod Freshness
use instacloud_oss.Base.{
  ℕ, ◌+◌, ◌*◌, ◌≡◌, String, Bool, true, false, List, [], ◌∷◌, Option, none, some, Map, get, put,
  del, has, string_instance, ◌==◌, ◌&&◌, ◌||◌, not, if◌then◌else◌, ltb, leb, contains, max, is_some,
  any,
}
use instacloud_oss.Scheduler.{
  Scheduler, ServiceTarget, ContainerState, running, paused, exited, created, restarting, dead,
  Container, Observed, Config, Effect, warn_unreadable, forget_if_changed, tell, target_of,
  desires_running, is_running, ServiceState, asleep, stopped, starting, absent,
}

abbrev pub Listing : Type 0
Listing = Map String Container

module _ (containers : Listing) (at : ℕ) where
  abbrev observe : Container → Observed
  observe c = record { state = c.state; id = c.id; at = at }

  -- One round of the first loop of `absorb`. The value of an entry is read back by its name, which
  -- is the same in a `Map`.
  take_one : String → Map String Observed → Map String Observed
  take_one name next = elim (get name containers) [
    | none ↦ next
    | some c ↦ elim (get name next) [
      | none ↦ put name (observe c) next
      | some known ↦ if leb known.at at then put name (observe c) next else next
    ]
  ]

  take_all : Listing → Map String Observed → Map String Observed
  take_all [] next = next
  take_all ((name, _) ∷ rest) next = take_all rest (take_one name next)

  -- One round of the second loop.
  drop_one : String → Map String Observed → Map String Observed
  drop_one name next = elim (get name next) [
    | none ↦ next
    | some known ↦ if not (has name containers) && leb known.at at then del name next else next
  ]

  drop_all : Map String Observed → Map String Observed → Map String Observed
  drop_all [] next = next
  drop_all ((name, _) ∷ rest) next = drop_all rest (drop_one name next)

  unfoldable pub absorb : Map String Observed → Map String Observed
  unfolding take_one take_all drop_one drop_all
  absorb cache = let next = take_all containers cache in drop_all next next

abbrev pub is_asleep : ServiceState → Bool
is_asleep asleep = true
is_asleep _ = false

-- The `switch` of `stateOf`; a container that is not up is asleep if the scheduler put it there.
abbrev pub state_from : ContainerState → ServiceTarget → ServiceState
state_from running t = running
state_from paused t = paused
state_from restarting t = starting
state_from _ t = if is_some t.slept_at && desires_running t.desired_state then asleep else stopped

unfoldable pub state_of : String → Scheduler → ServiceState
state_of key s =
    if contains key s.sleeping
    then asleep
    else (if contains key s.wakes then starting else elim (target_of key s) [
      | none ↦ absent
      | some t ↦ elim (get t.container s.state_cache) [
        | none ↦ absent
        | some live ↦ state_from live.state t
      ]
    ])

abbrev pub min_state_age_ms : ℕ
min_state_age_ms = 30000

unfoldable pub max_state_age_ms : Config → ℕ
max_state_age_ms cfg = max (2 * cfg.sweep_sec * 1000) min_state_age_ms

-- `now - at < max`, where `at` may lie ahead of `now`
abbrev pub is_fresh : Config → ℕ → Observed → Bool
is_fresh cfg now o = ltb now (o.at + max_state_age_ms cfg)

unfoldable pub observed_running : Config → String → ℕ → Scheduler → Bool
observed_running cfg container now s = elim (get container s.state_cache) [
  | none ↦ false
  | some live ↦ is_running live.state && is_fresh cfg now live
]

any_fresh : Config → ℕ → Map String Observed → Bool
any_fresh cfg now [] = false
any_fresh cfg now ((name, live) ∷ rest) = is_fresh cfg now live || any_fresh cfg now rest

unfoldable pub states_stale : Config → ℕ → Scheduler → Bool
unfolding any_fresh
states_stale cfg now s = not (any_fresh cfg now s.state_cache)
