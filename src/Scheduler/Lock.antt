-- ===== src/Scheduler/Lock.antt =====
-- The operation lock of src/scheduler.ts over several keys (`withOp`, `tryWithOp`, `enqueue` and
-- `release`). A promise of the code is the list of the acquisitions that it waits for: it has
-- settled when each of them was released.
pub mod Keys
pub mod Release
pub mod Invariant
pub mod Steps
pub mod Exclusion
mod Tests
use instacloud_oss.Base.{
  ℕ, suc, ◌+◌, ◌-◌, ◌<◌, ◌≡◌, String, Bool, true, false, List, [], ◌∷◌, ◌++◌, Option, none, some,
  Map, get, put, del, string_instance, nat_instance, ◌==◌, ◌&&◌, ◌||◌, not, if◌then◌else◌, leb, ltb,
  nat_eq, any, all, filter, contains, get_or,
}

-- An acquisition: `waits` is its `ready`, and it has been released when `held` has settled.
pub record Gate : Type 0 where
  pub id : ℕ
  pub keys : List String
  pub waits : List ℕ
  pub released : Bool

pub record OpEntry : Type 0 where
  pub chain : List ℕ
  pub count : ℕ

-- The gates that were handed out are kept here, the newest first.
pub record OpLock : Type 0 where
  pub next : ℕ
  pub ops : Map String OpEntry
  pub gates : List Gate

abbrev pub no_op : OpEntry
no_op = record { chain = []; count = 0 }

abbrev pub entry_of : String → Map String OpEntry → OpEntry
entry_of k ops = get_or (get k ops) no_op

-- The loop of `enqueue`: what the gate waits for, and the chains with the gate at their ends.
unfoldable pub extend_chains : ℕ → List String → Map String OpEntry → List ℕ × Map String OpEntry
extend_chains id [] ops = ([], ops)
extend_chains id (k ∷ ks) ops =
    let e = entry_of k ops in
    let longer : OpEntry = record { chain = e.chain ++ (id ∷ []); count = suc e.count } in
    let (waits, extended) = extend_chains id ks (put k longer ops) in (e.chain ++ waits, extended)

unfoldable pub enqueue_all : List String → OpLock → OpLock
enqueue_all keys l =
    let (waits, ops) = extend_chains l.next keys l.ops in
    record {
      next = suc l.next;
      ops = ops;
      gates = record { id = l.next; keys = keys; waits = waits; released = false } ∷ l.gates;
    }

-- `release` of one key
unfoldable pub release_key : String → Map String OpEntry → Map String OpEntry
release_key k ops = elim (get k ops) [
  | none ↦ ops
  | some e ↦ if leb e.count 1 then del k ops else put k (record e { count = e.count - 1 }) ops
]

unfoldable pub release_keys : List String → Map String OpEntry → Map String OpEntry
release_keys [] ops = ops
release_keys (k ∷ ks) ops = release_keys ks (release_key k ops)

unfoldable pub close : ℕ → List Gate → List Gate
close id [] = []
close id (g ∷ gs) = (if g.id == id then record g { released = true } else g) ∷ close id gs

-- The `finally` block of `withOp`.
unfoldable pub leave : ℕ → List String → OpLock → OpLock
leave id keys l = record l { ops = release_keys keys l.ops; gates = close id l.gates }

abbrev pub is_held : Gate → Bool
is_held g = not g.released

-- Whether the acquisition with an id has not been released.
unfoldable pub outstanding : ℕ → List Gate → Bool
outstanding id gs = any (λ g. g.id == id && is_held g) gs

-- `await gate.ready` has gone through.
unfoldable pub is_ready : Gate → OpLock → Bool
is_ready g l = all (λ w. not (outstanding w l.gates)) g.waits

-- The work of the acquisition runs.
abbrev pub is_admitted : Gate → OpLock → Bool
is_admitted g l = is_held g && is_ready g l

-- `[...new Set(keys)]`
unfoldable pub dedup : List String → List String
dedup [] = []
dedup (k ∷ ks) = k ∷ filter (λ j. not (j == k)) (dedup ks)

module _ (sort : List String → List String) where
  -- The keys that an operation has still to acquire.
  unfoldable pub needed : List String → List String → List String
  needed inherited keys = sort (filter (λ k. not (contains k inherited)) (dedup keys))

  -- What a call of `withOp` does at once: it runs on the keys it has, or gets a gate to wait at.
  pub data Admission : Type 0 where
    nested busy : Admission
    queued : (id : ℕ) (keys : List String) → Admission

  enter : List String → OpLock → Admission × OpLock
  enter [] l = (nested, l)
  enter (k ∷ ks) l = (queued l.next (k ∷ ks), enqueue_all (k ∷ ks) l)

  unfoldable pub with_op : List String → List String → OpLock → Admission × OpLock
  unfolding enter
  with_op inherited keys l = enter (needed inherited keys) l

  unfoldable pub try_with_op : List String → List String → OpLock → Admission × OpLock
  try_with_op inherited keys l =
      if any (λ k. ltb 0 (entry_of k l.ops).count) (needed inherited keys)
      then (busy, l)
      else with_op inherited keys l
