-- ===== src/Scheduler/Boot.antt =====
-- What the scheduler does when it starts, and its answers on single containers (`reconcile`,
-- `containerSnapshot` and `containerPresence` of src/scheduler.ts).
use instacloud_oss.Base.{
  String, Bool, true, false, List, [], ◌∷◌, Option, none, some, get, has, map, string_instance,
  ◌&&◌, not, if◌then◌else◌, leb, is_some,
}
use instacloud_oss.Scheduler.{
  Scheduler, ServiceTarget, Observed, Config, is_running, mark_slept, register, tell, touch,
}
use instacloud_oss.Scheduler.Runtime.{Runtime, ok, threw, read_containers, refresh_states}

-- `live?.state === 'running'`
abbrev seen_running : Option Observed → Bool
seen_running none = false
seen_running (some live) = is_running live.state

-- One service: a fresh idle window, and no sleep mark on what came back up by itself.
unfoldable pub reconcile_one : ServiceTarget → Scheduler → Scheduler
reconcile_one t s =
    let u = register (t.key ∷ []) s in
    if seen_running (get t.container u.state_cache) && is_some t.slept_at
    then touch t.key (tell (mark_slept t.key none) u)
    else u

unfoldable pub reconcile_all : List ServiceTarget → Scheduler → Scheduler
reconcile_all [] s = s
reconcile_all (t ∷ ts) s = reconcile_all ts (reconcile_one t s)

pub data Presence : Type 0 where
  present gone unknown : Presence

module _ (docker : Runtime) where
  -- The flag is `memoryWarned`; it turns true with the warning that eviction is off.
  unfoldable pub reconcile : Config → Bool → Scheduler → Bool × Scheduler
  reconcile cfg memory_warned s =
      let u = refresh_states docker s in
      let v = reconcile_all u.targets u in
      (
        if not (leb cfg.ram_floor_pct 0) && (not (is_some (docker.memory v)) && not memory_warned)
            then true
            else memory_warned,
        v,
      )

  unfoldable pub container_snapshot : Scheduler → Option (List String) × Scheduler
  container_snapshot s =
      let (answer, u) = read_containers docker s in
      elim answer [ threw ↦ (none, u) | ok listing ↦ (some (map (λ e. e.0) listing), u) ]

  -- `gone` only where docker answered without the container.
  unfoldable pub container_presence : String → Scheduler → Presence × Scheduler
  container_presence container s =
      let (answer, u) = read_containers docker s in
      elim answer [
        | threw ↦ (unknown, u)
        | ok listing ↦ (if has container listing then present else gone, u)
      ]
