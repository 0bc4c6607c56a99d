-- ===== src/Scheduler.antt =====
-- The scheduler of src/scheduler.ts: its state, and the methods that run in one synchronous step.
-- `Date.now()` is the field `clock`, which moves only where the code awaits. What the code tells
-- the engine's hooks and the address cache is the field `log`, newest first. `targets` is the
-- engine's projection of its state document, read afresh by each call.
pub mod Laws
pub mod Lock
pub mod Snapshot
pub mod Runtime
pub mod Sleep
pub mod Boot
pub mod Evict
pub mod Wake
mod Tests
use instacloud_oss.Base.{
  ℕ, zero, ◌+◌, ◌-◌, ◌*◌, String, Bool, true, false, List, [], ◌∷◌, Option, none, some, Map, get,
  put, del, has, get_or, find, string_instance, ◌==◌, ◌||◌, if◌then◌else◌, ltb, contains, filter,
  not,
}

pub data ServiceKind : Type 0 where
  compute postgres managed : ServiceKind

pub data DesiredState : Type 0 where
  running stopped suspended : DesiredState

pub record ServiceLimits : Type 0 where
  pub cpu : ℕ
  pub memory_mb : ℕ

pub record ServiceTarget : Type 0 where
  pub key : String
  pub kind : ServiceKind
  pub container : String
  pub network : String
  pub port : ℕ
  pub project_id : String
  pub branch_id : String
  pub service_id : String
  pub always_on : Bool
  pub desired_state : DesiredState
  pub idle_sec : ℕ
  pub limits : Option ServiceLimits
  pub slept_at : Option ℕ
  pub created_at : ℕ

pub data ContainerState : Type 0 where
  running paused exited created restarting dead : ContainerState

-- What `stateOf` answers; `absent` is its `none`.
pub data ServiceState : Type 0 where
  running asleep stopped paused starting absent : ServiceState

-- What `docker ps -a` says of one container.
pub record Container : Type 0 where
  pub state : ContainerState
  pub id : String

pub record Memory : Type 0 where
  pub available_bytes : ℕ
  pub total_bytes : ℕ

pub data SleepReason : Type 0 where
  idle memory branch_create : SleepReason

pub data WakeDoor : Type 0 where
  traffic api deploy : WakeDoor

-- One container as the snapshot holds it; `at` is when that was observed.
pub record Observed : Type 0 where
  pub state : ContainerState
  pub id : String
  pub at : ℕ

pub record LedgerEntry : Type 0 where
  pub last_active_at : ℕ
  pub woke_at : Option ℕ
  pub last_rss_bytes : Option ℕ

-- Calls of the hooks, of the address cache, and warnings.
pub data Effect : Type 0 where
  mark_slept : String → Option ℕ → Effect
  emit_sleep : String → SleepReason → Effect
  emit_wake : String → WakeDoor → ℕ → Effect
  forget_address : String → Effect
  forget_if_changed : String → String → Effect
  warn_unreadable warn_pressure warn_cannot_tell warn_gave_up : Effect

-- The `sleep` and `lanes` settings that the scheduler reads.
pub record Config : Type 0 where
  pub sweep_sec : ℕ
  pub create_grace_sec : ℕ
  pub stop_grace_sec : ℕ
  pub stop_grace_db_sec : ℕ
  pub wake_timeout_sec : ℕ
  pub wake_protect_sec : ℕ
  pub ram_floor_pct : ℕ
  pub touch_debounce_ms : ℕ

pub record Scheduler : Type 0 where
  pub ledger : Map String LedgerEntry
  pub ops : Map String ℕ
  pub wakes : List String
  pub sleeping : List String
  pub hold_counts : Map String ℕ
  pub state_cache : Map String Observed
  pub states_readable : Bool
  pub eviction_logged : Bool
  pub targets : List ServiceTarget
  pub clock : ℕ
  pub log : List Effect

abbrev pub mib : ℕ
mib = 1024 * 1024

abbrev pub default_rss : ServiceKind → ℕ
default_rss compute = 256 * mib
default_rss postgres = 128 * mib
default_rss managed = 256 * mib

abbrev pub desires_running : DesiredState → Bool
desires_running running = true
desires_running _ = false

abbrev pub is_running : ContainerState → Bool
is_running running = true
is_running _ = false

abbrev pub tell : Effect → Scheduler → Scheduler
tell e s = record s { log = e ∷ s.log }

abbrev pub fresh_entry : ℕ → LedgerEntry
fresh_entry now = record { last_active_at = now; woke_at = none; last_rss_bytes = none }

-- What `rec(key)` answers.
abbrev pub entry : String → Scheduler → LedgerEntry
entry key s = get_or (get key s.ledger) (fresh_entry s.clock)

-- What `rec(key)` leaves: a first sight is recorded.
unfoldable pub seen : String → Scheduler → Scheduler
seen key s = record s {
  ledger = elim (get key s.ledger) [
    | none ↦ put key (fresh_entry s.clock) s.ledger
    | some r ↦ s.ledger
  ];
}

-- A change of the entry that `rec(key)` answers.
abbrev pub change_entry : String → (LedgerEntry → LedgerEntry) → Scheduler → Scheduler
change_entry key f s = record s { ledger = put key (f (entry key s)) s.ledger }

unfoldable pub touch : String → Scheduler → Scheduler
touch key s = change_entry key (λ r. record r { last_active_at = s.clock }) s

unfoldable pub register : List String → Scheduler → Scheduler
unfolding seen
register [] s = s
register (key ∷ keys) s = register keys (if has key s.ledger then s else seen key s)

-- `Set.delete`
abbrev pub remove : String → List String → List String
remove key keys = filter (λ k. not (k == key)) keys

abbrev pub forget_one : String → Scheduler → Scheduler
forget_one key s = record s {
  ledger = del key s.ledger;
  wakes = remove key s.wakes;
  sleeping = remove key s.sleeping;
  hold_counts = del key s.hold_counts;
}

unfoldable pub forget : List String → Scheduler → Scheduler
forget [] s = s
forget (key ∷ keys) s = forget keys (forget_one key s)

-- Move an entry to another key, if there is one.
abbrev pub move {ℓ} : {V : Type ℓ} → String → String → Map String V → Map String V
move from to m = elim (get from m) [ none ↦ m | some v ↦ del from (put to v m) ]

unfoldable pub rekey : String → String → Scheduler → Scheduler
rekey from to s = record s {
  ledger = move from to s.ledger;
  hold_counts = move from to s.hold_counts;
}

-- `new Map(list.map((t) => [t.key, t]))` keeps the last target of a key.
unfoldable pub last_of : String → List ServiceTarget → Option ServiceTarget
last_of key [] = none
last_of key (t ∷ ts) = elim (last_of key ts) [
  | some u ↦ some u
  | none ↦ if t.key == key then some t else none
]

abbrev pub target_of : String → Scheduler → Option ServiceTarget
target_of key s = last_of key s.targets

abbrev pub known_id : Option Observed → String
known_id none = ""
known_id (some o) = o.id

unfoldable pub set_cached : String → ContainerState → Scheduler → Scheduler
set_cached key state s = record s {
  state_cache = elim (target_of key s) [
    | none ↦ s.state_cache
    | some t ↦
        put t.container
          (record { state = state; id = known_id (get t.container s.state_cache); at = s.clock })
          s.state_cache
  ];
}

unfoldable pub forget_address_of : String → Scheduler → Scheduler
forget_address_of key s = record s {
  log = elim (target_of key s) [ none ↦ s.log | some t ↦ forget_address t.container ∷ s.log ];
}

unfoldable pub on_up : String → Scheduler → Scheduler
on_up key s =
    let stamped =
      change_entry key (λ r. record r { last_active_at = s.clock; woke_at = some s.clock }) s in
    forget_address_of key (set_cached key running (tell (mark_slept key none) stamped))

unfoldable pub on_asleep : String → Scheduler → Scheduler
on_asleep key s =
    forget_address_of key (set_cached key exited (tell (mark_slept key (some s.clock)) s))

unfoldable pub on_stopped : String → Scheduler → Scheduler
on_stopped key s = forget_address_of key (set_cached key exited (tell (mark_slept key none) s))

unfoldable pub on_paused : String → Scheduler → Scheduler
on_paused key s = forget_address_of key (set_cached key paused s)

abbrev pub holds : String → Scheduler → ℕ
holds key s = get_or (get key s.hold_counts) 0

unfoldable pub begin_hold : String → Scheduler → Scheduler
begin_hold key s = record s { hold_counts = put key (holds key s + 1) s.hold_counts }

-- `holds - 1` may be negative in the source, where the entry is deleted as at 0.
unfoldable pub end_hold : String → Scheduler → Scheduler
end_hold key s =
    if ltb 1 (holds key s)
    then record s { hold_counts = put key (holds key s - 1) s.hold_counts }
    else record s { hold_counts = del key s.hold_counts }

abbrev pub op_count : String → Scheduler → ℕ
op_count key s = get_or (get key s.ops) 0

-- True while any operation holds or waits on the key.
unfoldable pub busy : String → Scheduler → Bool
busy key s = ltb 0 (op_count key s) || (contains key s.wakes || contains key s.sleeping)
