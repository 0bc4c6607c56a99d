-- ===== src/Scheduler/Wake/Singleflight.antt =====
-- Concurrent wakes of one service share one piece of work.
use instacloud_oss.Base.{
  suc, ◌≡◌, refl, String, true, false, List, [], ◌∷◌, some, string_instance, contains, arith,
  eq_refl, get-put_self,
}
use instacloud_oss.Scheduler.{
  Scheduler, ServiceTarget, WakeDoor, target_of, desires_running, op_count, remove,
}
use instacloud_oss.Scheduler.Sleep.{enqueue}
use instacloud_oss.Scheduler.Wake.{WakeStart, started, joined, refuses, add_wake, wake_start}

-- The answers to callers that come one after the other, before the work has settled.
pub callers : String → List WakeDoor → Scheduler → List WakeStart × Scheduler
callers key [] s = ([], s)
callers key (door ∷ doors) s =
    let (first, t) = wake_start key door [] s in
    let (rest, u) = callers key doors t in (first ∷ rest, u)

abbrev pub all_joined : List WakeDoor → List WakeStart
all_joined [] = []
all_joined (d ∷ ds) = joined ∷ all_joined ds

join_one :
    (key : String) (door : WakeDoor) (s : Scheduler) (t : ServiceTarget)
    → target_of key s ≡ some t
    → desires_running t.desired_state ≡ true
    → contains key s.wakes ≡ true
    → wake_start key door [] s ≡ (joined, s)
unfolding wake_start refuses contains
join_one key door s t e d w = ground (arith, e, d, w)

join_all :
    (key : String) (doors : List WakeDoor) (s : Scheduler) (t : ServiceTarget)
    → target_of key s ≡ some t
    → desires_running t.desired_state ≡ true
    → contains key s.wakes ≡ true
    → callers key doors s ≡ (all_joined doors, s)
unfolding callers
join_all key [] s t e d w = refl
join_all key (door ∷ doors) s t e d w =
    rw (join_one key door s t e d w) (rw (join_all key doors s t e d w) refl)

start_one :
    (key : String) (door : WakeDoor) (s : Scheduler) (t : ServiceTarget)
    → target_of key s ≡ some t
    → desires_running t.desired_state ≡ true
    → contains key s.wakes ≡ false
    → wake_start key door [] s ≡ (started, add_wake key (enqueue key s))
unfolding wake_start refuses contains
start_one key door s t e d w = ground (arith, e, d, w)

contains-add_wake : (key : String) (keys : List String) → contains key (key ∷ keys) ≡ true
unfolding contains
contains-add_wake key keys = rw (eq_refl key) refl

-- However many callers ask for a sleeping service that is wanted running, the first one starts the
-- work and every other one joins it, and the operation lock is entered once.
pub wakes_once :
    (key : String) (door : WakeDoor) (doors : List WakeDoor) (s : Scheduler) (t : ServiceTarget)
    → target_of key s ≡ some t
    → desires_running t.desired_state ≡ true
    → contains key s.wakes ≡ false
    → let (answers, u) = callers key (door ∷ doors) s in
      (answers ≡ started ∷ all_joined doors) × (op_count key u ≡ suc (op_count key s))
unfolding callers
wakes_once key door doors s t e d w =
    let rest =
      join_all key doors (add_wake key (enqueue key s)) t (unfold enqueue in e) d
        (contains-add_wake key (remove key (enqueue key s).wakes)) in
    rw (start_one key door s t e d w)
      (rw rest (refl, unfold enqueue in rw (get-put_self key (suc (op_count key s)) s.ops) refl))
