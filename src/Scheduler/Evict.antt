-- ===== src/Scheduler/Evict.antt =====
-- Eviction under memory pressure (`evictForRoom` and `isVictim` of src/scheduler.ts).
pub mod Choice
pub mod Laws
use instacloud_oss.Base.{
  ℕ, zero, suc, ◌+◌, ◌-◌, ◌*◌, String, Bool, true, false, List, [], ◌∷◌, Option, none, some, get_or,
  string_instance, ◌==◌, ◌&&◌, ◌||◌, not, if◌then◌else◌, ltb, leb, nat_eq, contains, max, head?,
}
use instacloud_oss.Scheduler.{
  Scheduler, ServiceTarget, LedgerEntry, Config, memory, Memory, default_rss, entry, seen, tell,
  desires_running, busy, holds, warn_pressure, warn_cannot_tell, warn_gave_up,
}
use instacloud_oss.Scheduler.Snapshot.{observed_running, states_stale}
use instacloud_oss.Scheduler.Runtime.{Runtime, Outcome, ok, threw}
use instacloud_oss.Scheduler.Sleep.{sleep}

abbrev pub eviction_ceiling : ℕ
eviction_ceiling = 10000

-- `wokeAt !== undefined && now - wokeAt < protect`
abbrev pub just_woken : Config → ℕ → Option ℕ → Bool
just_woken cfg now none = false
just_woken cfg now (some at) = ltb now (at + cfg.wake_protect_sec * 1000)

-- The tests of `isVictim` above its look at the ledger.
unfoldable pub may_evict : Config → List String → List String → ServiceTarget → ℕ → Scheduler → Bool
may_evict cfg exclude tried t now s =
    not (contains t.key exclude || contains t.key tried)
    && (observed_running cfg t.container now s
        && (not (t.always_on || not (desires_running t.desired_state))
            && (not (busy t.key s) && not (ltb 0 (holds t.key s)))))

-- Those below it.
unfoldable pub is_quiet : Config → ServiceTarget → ℕ → Scheduler → Bool
is_quiet cfg t now s =
    not (ltb now ((entry t.key s).last_active_at + 2 * cfg.touch_debounce_ms))
    && not (just_woken cfg now (entry t.key s).woke_at)

unfoldable pub is_victim :
    Config → List String → List String → ServiceTarget → ℕ → Scheduler → Bool × Scheduler
is_victim cfg exclude tried t now s =
    if may_evict cfg exclude tried t now s then (is_quiet cfg t now s, seen t.key s) else (false, s)

-- `targets.filter((t) => this.isVictim(t, …))`
unfoldable pub victims :
    Config
    → List String
    → List String
    → ℕ
    → List ServiceTarget
    → Scheduler
    → List ServiceTarget × Scheduler
victims cfg exclude tried now [] s = ([], s)
victims cfg exclude tried now (t ∷ ts) s =
    let (fits, s') = is_victim cfg exclude tried t now s in
    let (rest, s'') = victims cfg exclude tried now ts s' in (if fits then t ∷ rest else rest, s'')

-- The comparison of the sort: `a` may stand before `b`. Least recently active first, then the
-- larger one.
unfoldable pub precedes : LedgerEntry → LedgerEntry → Bool
precedes a b =
    if nat_eq a.last_active_at b.last_active_at
    then leb (get_or b.last_rss_bytes 0) (get_or a.last_rss_bytes 0)
    else ltb a.last_active_at b.last_active_at

-- A stable sort by insertion.
module _ (s : Scheduler) where
  unfoldable pub insert : ServiceTarget → List ServiceTarget → List ServiceTarget
  insert t [] = t ∷ []
  insert t (u ∷ us) =
      if precedes (entry t.key s) (entry u.key s) then t ∷ u ∷ us else u ∷ insert t us

  unfoldable pub sort : List ServiceTarget → List ServiceTarget
  sort [] = []
  sort (t ∷ ts) = insert t (sort ts)

-- How a pass ends: by one of its returns, by the counter, or by an exception of `sleep`.
pub data PassEnd : Type 0 where
  disabled unmeasured enough_room no_victim gave_up failed : PassEnd

module _ (docker : Runtime) (cfg : Config) (need : ℕ) (owned exclude : List String)
    (first : Memory) where
  abbrev pub available : Memory → ℕ → ℕ
  available now freed = max now.available_bytes (first.available_bytes + freed)

  -- `available - need >= total * (pct / 100)`, with no rounding
  abbrev pub has_room : Memory → ℕ → Bool
  has_room now freed =
      leb (first.total_bytes * cfg.ram_floor_pct + need * 100) (available now freed * 100)

  warn_no_victim : ℕ → Scheduler → Scheduler
  warn_no_victim now s =
      if s.eviction_logged
      then s
      else tell (if states_stale cfg now s then warn_cannot_tell else warn_pressure)
          (record s { eviction_logged = true })

  freed_by : ServiceTarget → Scheduler → ℕ
  freed_by t s = get_or (entry t.key s).last_rss_bytes (default_rss t.kind)

  -- The loop; the first argument is the number of rounds left before the ceiling.
  unfoldable pub evict_loop : ℕ → List String → ℕ → Scheduler → PassEnd × Scheduler
  unfolding warn_no_victim freed_by
  evict_loop zero tried freed s = (gave_up, tell warn_gave_up s)
  evict_loop (suc rounds) tried freed s = elim (docker.memory s) [
    | none ↦ (unmeasured, s)
    | some now ↦
        if has_room now freed
        then (enough_room, s)
        else (let (pool, t) = victims cfg exclude tried s.clock s.targets s in
            elim (head? (sort t pool)) [
              | none ↦ (no_victim, warn_no_victim s.clock t)
              | some victim ↦
                  let (slept, u) = sleep docker cfg victim.key memory owned t in
                  elim slept [
                    | threw ↦ (failed, u)
                    | ok true ↦
                        evict_loop rounds (victim.key ∷ tried) (freed + freed_by victim u)
                          (seen victim.key u)
                    | ok false ↦ evict_loop rounds (victim.key ∷ tried) freed u
                  ]
            ])
  ]

unfoldable pub evict_for_room :
    Runtime → Config → ℕ → List String → List String → Scheduler → PassEnd × Scheduler
evict_for_room docker cfg need owned exclude s =
    if leb cfg.ram_floor_pct 0 then (disabled, s) else elim (docker.memory s) [
      | none ↦ (unmeasured, s)
      | some first ↦ evict_loop docker cfg need owned exclude first eviction_ceiling [] 0 s
    ]
