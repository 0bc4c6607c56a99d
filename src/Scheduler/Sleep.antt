-- ===== src/Scheduler/Sleep.antt =====
-- The idle rule, the operation lock of one key, and `sleep` (src/scheduler.ts).
pub mod Laws
pub mod Keeps
use instacloud_oss.Base.{
  ℕ, suc, ◌+◌, ◌-◌, ◌*◌, String, Bool, true, false, List, [], ◌∷◌, Option, none, some, Map, get,
  put, del, string_instance, ◌==◌, ◌&&◌, ◌||◌, not, if◌then◌else◌, ltb, leb, contains, get_or,
}
use instacloud_oss.Scheduler.{
  Scheduler, ServiceTarget, ServiceKind, compute, postgres, managed, ContainerState, running,
  paused, exited, created, restarting, dead, Config, SleepReason, idle, memory, branch_create,
  Observed, Effect, emit_sleep, tell, entry, seen, target_of, desires_running, on_asleep, busy,
  op_count, remove,
}
use instacloud_oss.Scheduler.Snapshot.{observed_running}
use instacloud_oss.Scheduler.Runtime.{Runtime, Outcome, ok, threw, read_containers}

-- The tests of `isIdleCandidate` above its look at the ledger.
unfoldable pub may_idle : Config → ServiceTarget → ℕ → Scheduler → Bool
may_idle cfg t now s =
    observed_running cfg t.container now s
    && (not t.always_on
        && (desires_running t.desired_state && (ltb 0 t.idle_sec && not (busy t.key s))))

-- Those below it. `now - a < b` is written `now < a + b`.
unfoldable pub idled_out : Config → ServiceTarget → ℕ → Scheduler → Bool
idled_out cfg t now s =
    leb ((entry t.key s).last_active_at + t.idle_sec * 1000) now
    && leb (t.created_at + cfg.create_grace_sec * 1000) now

-- The look at the ledger records a service that it sees for the first time.
unfoldable pub is_idle_candidate : Config → ServiceTarget → ℕ → Scheduler → Bool × Scheduler
is_idle_candidate cfg t now s =
    if may_idle cfg t now s then (idled_out cfg t now s, seen t.key s) else (false, s)

-- `targets.filter((t) => this.isIdleCandidate(t, now))`
unfoldable pub idle_candidates :
    Config → ℕ → List ServiceTarget → Scheduler → List ServiceTarget × Scheduler
idle_candidates cfg now [] s = ([], s)
idle_candidates cfg now (t ∷ ts) s =
    let (fits, s') = is_idle_candidate cfg t now s in
    let (rest, s'') = idle_candidates cfg now ts s' in (if fits then t ∷ rest else rest, s'')

unfoldable pub grace_for : Config → ServiceTarget → SleepReason → ℕ
grace_for cfg t memory = cfg.stop_grace_sec
grace_for cfg t _ = elim t.kind [ compute ↦ cfg.stop_grace_sec | _ ↦ cfg.stop_grace_db_sec ]

-- `enqueue` and `release`, as far as the count of one key goes.
unfoldable pub enqueue : String → Scheduler → Scheduler
enqueue key s = record s { ops = put key (suc (op_count key s)) s.ops }

unfoldable pub release : String → Scheduler → Scheduler
release key s = record s {
  ops = elim (get key s.ops) [
    | none ↦ s.ops
    | some n ↦ if ltb 1 n then put key (n - 1) s.ops else del key s.ops
  ];
}

module _ (docker : Runtime) (cfg : Config) (key : String) (reason : SleepReason) where
  -- The stop of a container that docker has just listed as running.
  stop_running : ServiceTarget → Scheduler → Outcome Bool × Scheduler
  stop_running t s =
      let (done, u) = docker.stop t.container (grace_for cfg t reason) s in
      elim done [
        | threw ↦ (threw, record u { state_cache = del t.container u.state_cache })
        | ok _ ↦ (ok true, tell (emit_sleep key reason) (on_asleep key u))
      ]

  stop_listed : Option Observed → ServiceTarget → Scheduler → Outcome Bool × Scheduler
  stop_listed none t s = (ok false, s)
  stop_listed (some live) t s = elim live.state [
    | running ↦ stop_running t s
    | created ↦ (ok true, on_asleep key s)
    | _ ↦ (ok false, s)
  ]

  -- The `try` block.
  stop_target : ServiceTarget → Scheduler → Outcome Bool × Scheduler
  stop_target t s =
      let (answer, u) = read_containers docker s in
      elim answer [ threw ↦ (threw, u) | ok listing ↦ stop_listed (get t.container listing) t u ]

  -- What `sleep` runs under the lock; the mark goes away however the block ends.
  unfoldable pub sleep_locked : Scheduler → Outcome Bool × Scheduler
  unfolding stop_running stop_listed stop_target
  sleep_locked s = elim (target_of key s) [
    | none ↦ (ok false, s)
    | some t ↦
        let (out, u) = stop_target t (record s { sleeping = key ∷ remove key s.sleeping }) in
        (out, record u { sleeping = remove key u.sleeping })
  ]

  -- `owned` are the keys that the calling context holds. `null` of `tryWithOp` is read as false.
  unfoldable pub sleep : List String → Scheduler → Outcome Bool × Scheduler
  unfolding sleep_locked
  sleep owned s =
      if contains key owned
      then sleep_locked s
      else (if ltb 0 (op_count key s)
          then (ok false, s)
          else (let (out, u) = sleep_locked (docker.turn (enqueue key s)) in (out, release key u)))
