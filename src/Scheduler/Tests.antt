-- ===== src/Scheduler/Tests.antt =====
-- The scheduler's theorems at a small box: two sleeping-eligible services and a docker that answers.
use instacloud_oss.Base.{
  ℕ, suc, ◌+◌, ◌≡◌, ◌≢◌, refl, String, true, false, List, [], ◌∷◌, none, some, Map, get, put, del,
  contains, string_instance, arith, head?,
}
use instacloud_oss.Scheduler.{
  Scheduler, ServiceTarget, Config, compute, postgres, running, stopped, Observed, idle, memory,
  traffic, api, target_of, op_count, last_of, seen, busy,
}
use instacloud_oss.Scheduler.Snapshot.{Listing, absorb, observed_running, max_state_age_ms}
use instacloud_oss.Scheduler.Snapshot.Laws.{merge, get-absorb}
use instacloud_oss.Scheduler.Snapshot.Freshness.{absorb_revives}
use instacloud_oss.Scheduler.Runtime.{Runtime, ok, threw, read_containers}
use instacloud_oss.Scheduler.Sleep.{sleep_locked, is_idle_candidate, may_idle, idled_out}
use instacloud_oss.Scheduler.Sleep.Keeps.{Keeps, sleep-keeps}
use instacloud_oss.Scheduler.Sleep.Laws.{WentToSleep, sleep_locked-true, marked}
use instacloud_oss.Scheduler.Evict.{
  gave_up, evict_for_room, is_victim, may_evict, is_quiet, victims, sort, insert, precedes,
}
use instacloud_oss.Scheduler.Evict.Choice.{Chosen, Chosen-of_head}
use instacloud_oss.Scheduler.Evict.Laws.{
  KeysIn, KeptByStops, evict_for_room_ends, evict_for_room_keeps,
}
use instacloud_oss.Scheduler.Wake.{woke, out_of_rounds, refuses, wake_locked, joined, started}
use instacloud_oss.Scheduler.Wake.Laws.{wake_locked-woke, Answered, TimePasses, wake_locked_ends}
use instacloud_oss.Scheduler.Wake.Singleflight.{callers, wakes_once}

abbrev cfg : Config
cfg = record {
  sweep_sec = 30;
  create_grace_sec = 600;
  stop_grace_sec = 10;
  stop_grace_db_sec = 30;
  wake_timeout_sec = 2;
  wake_protect_sec = 60;
  ram_floor_pct = 10;
  touch_debounce_ms = 5000;
}

abbrev web : ServiceTarget
web = record {
  key = "b:cp-web";
  kind = compute;
  container = "io-web";
  network = "n";
  port = 80;
  project_id = "p";
  branch_id = "b";
  service_id = "cp-web";
  always_on = false;
  desired_state = running;
  idle_sec = 300;
  limits = none;
  slept_at = none;
  created_at = 0;
}

abbrev db : ServiceTarget
db = record web { key = "b:pg-db"; kind = postgres; container = "io-db"; service_id = "pg-db" }

-- Both services run, and have not been asked for anything since the start of time.
abbrev box : Scheduler
box = record {
  ledger =
      ("b:cp-web", record { last_active_at = 5; woke_at = none; last_rss_bytes = none })
      ∷ ("b:pg-db", record { last_active_at = 3; woke_at = none; last_rss_bytes = none })
      ∷ [];
  ops = [];
  wakes = [];
  sleeping = [];
  hold_counts = [];
  state_cache =
      ("io-web", record { state = running; id = "1"; at = 999990 })
      ∷ ("io-db", record { state = running; id = "2"; at = 999990 })
      ∷ [];
  states_readable = true;
  eviction_logged = false;
  targets = web ∷ db ∷ [];
  clock = 1000000;
  log = [];
}

abbrev all_running : Listing
all_running =
    ("io-web", record { state = running; id = "1" })
    ∷ ("io-db", record { state = running; id = "2" })
    ∷ []

abbrev waits : ℕ → Scheduler → Scheduler
waits ms s = record s { clock = s.clock + ms }

-- Docker obeys at once, and nothing else happens meanwhile.
abbrev docker : Runtime
docker = record {
  containers = λ s. (ok all_running, waits 1 s);
  stats = λ s. (ok [], s);
  memory = λ s. some (record { available_bytes = 1; total_bytes = 100 });
  start = λ c s. (ok tt, waits 1 s);
  stop = λ c n s. (ok tt, waits 1 s);
  unpause = λ c s. (ok tt, s);
  probe = λ t s. (true, waits 1 s);
  turn = λ s. s;
  granted = λ k s. s;
  pause = λ s. waits 250 s;
}

-- A docker that refuses to stop anything.
abbrev stubborn : Runtime
stubborn = record docker { stop = λ c n s. (threw, s) }

-- A docker that lists nothing.
abbrev empty_docker : Runtime
empty_docker = record docker { containers = λ s. (ok [], s) }

abbrev box_keys : List String
box_keys = "b:cp-web" ∷ "b:pg-db" ∷ []

keys_kept : Keeps (KeysIn box_keys) docker
keys_kept = record { containers = λ s h. h; stop = λ c n s h. h; turn = λ s h. h }

box-KeysIn : KeysIn box_keys box.targets
unfolding contains
box-KeysIn = (refl, (refl, tt))

evict_for_room_ends_example : (evict_for_room docker cfg 50 [] [] box).0 ≢ gave_up
evict_for_room_ends_example =
    evict_for_room_ends docker cfg 50 [] [] box_keys box keys_kept box-KeysIn (omega arith)

time_passes : TimePasses docker cfg
time_passes = record {
  probing = λ t s. omega arith;
  reading = λ s. omega arith;
  pausing = λ s. omega arith;
}

wake_locked_ends_example : (wake_locked docker cfg 9 "b:cp-web" traffic [] box).0 ≢ out_of_rounds
wake_locked_ends_example =
    wake_locked_ends docker cfg time_passes 9 "b:cp-web" traffic [] box (omega arith)

wakes : (wake_locked docker cfg 9 "b:cp-web" traffic [] box).0 ≡ woke
unfolding wake_locked last_of get put contains read_containers absorb refuses
wakes = refl

wake_locked-woke_example :
    (t : ServiceTarget) × (target_of "b:cp-web" box ≡ some t) × Answered docker cfg t
wake_locked-woke_example = wake_locked-woke docker cfg 9 "b:cp-web" traffic [] box wakes

falls_asleep : (sleep_locked docker cfg "b:cp-web" idle box).0 ≡ ok true
unfolding sleep_locked last_of get put contains read_containers absorb
falls_asleep = refl

sleep_locked-true_example : WentToSleep docker cfg "b:cp-web" idle box
sleep_locked-true_example = sleep_locked-true docker cfg "b:cp-web" idle box falls_asleep

web_found : target_of "b:cp-web" box ≡ some web
unfolding last_of
web_found = refl

abbrev web_up : Observed
web_up = record { state = running; id = "1"; at = 1000000 }

abbrev listed : Map String Observed
listed = ("io-web", web_up) ∷ ("io-db", record { state = running; id = "2"; at = 1000000 }) ∷ []

box_listed : (read_containers stubborn (marked stubborn cfg "b:cp-web" idle box)).0 ≡ ok listed
unfolding get put read_containers absorb
box_listed = refl

web_listed : get "io-web" listed ≡ some web_up
unfolding get
web_listed = refl

nothing_listed :
    (read_containers empty_docker (marked empty_docker cfg "b:cp-web" idle box)).0 ≡ ok []
unfolding get del read_containers absorb
nothing_listed = refl

web_idle : (is_idle_candidate cfg web 1000000 box).0 ≡ true
unfolding is_idle_candidate may_idle idled_out observed_running max_state_age_ms busy get contains
web_idle = refl

abbrev unknown : ServiceTarget
unknown = record web { key = "b:cp-new" }

new_unknown : get "b:cp-new" box.ledger ≡ none
unfolding get
new_unknown = refl

db_first :
    head? (
      sort
        (victims cfg [] [] 1000000 (web ∷ db ∷ []) box).1
        (victims cfg [] [] 1000000 (web ∷ db ∷ []) box).0)
    ≡ some db
unfolding victims is_victim may_evict is_quiet observed_running max_state_age_ms busy get contains
    seen sort insert precedes
db_first = refl

Chosen-of_head_example :
    Chosen (λ u. Unit {0}) cfg [] [] box (victims cfg [] [] 1000000 (web ∷ db ∷ []) box).1 db
Chosen-of_head_example = Chosen-of_head (λ u. Unit {0}) cfg [] [] box db (tt, (tt, tt)) db_first

abbrev stopped_web : ServiceTarget
stopped_web = record web { desired_state = stopped }

abbrev stopped_box : Scheduler
stopped_box = record box { targets = stopped_web ∷ db ∷ [] }

stopped_found : target_of "b:cp-web" stopped_box ≡ some stopped_web
unfolding last_of
stopped_found = refl

wakes_once_example :
    let (answers, u) = callers "b:cp-web" (traffic ∷ api ∷ traffic ∷ []) box in
    (answers ≡ started ∷ joined ∷ joined ∷ [])
    × (op_count "b:cp-web" u ≡ suc (op_count "b:cp-web" box))
unfolding contains
wakes_once_example = wakes_once "b:cp-web" traffic (api ∷ traffic ∷ []) box web web_found refl refl

get-absorb_example :
    get "io-web" (absorb all_running 1000000 box.state_cache)
    ≡ merge 1000000 (get "io-web" all_running) (get "io-web" box.state_cache)
get-absorb_example = get-absorb all_running 1000000 "io-web" box.state_cache

absorb_revives_example :
    get "io-web" (absorb all_running 5 (absorb [] 9 []))
    ≡ some (record { state = running; id = "1"; at = 5 })
unfolding get
absorb_revives_example =
    absorb_revives all_running [] 5 9 [] "io-web" (record { state = running; id = "1" }) refl refl
      (λ o e. cc)

keys_survive : KeptByStops docker cfg 50 [] [] (λ s. KeysIn box_keys s.targets)
keys_survive = record {
  look = λ s m looked i. i;
  warning = λ s logged log i. i;
  stop = λ tried s t v c i.
      sleep-keeps (KeysIn box_keys) docker keys_kept cfg v.key memory [] t (rw c.looks i);
}

evict_for_room_keeps_example : KeysIn box_keys (evict_for_room docker cfg 50 [] [] box).1.targets
evict_for_room_keeps_example =
    evict_for_room_keeps docker cfg 50 [] [] (λ s. KeysIn box_keys s.targets) keys_survive box
      box-KeysIn
