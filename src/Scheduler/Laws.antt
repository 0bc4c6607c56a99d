-- ===== src/Scheduler/Laws.antt =====
-- Laws of the synchronous methods: the ledger, the holds, and the count of the operation lock.
use instacloud_oss.Base.{
  ◌+◌, ◌≡◌, ◌≢◌, refl, String, false, List, [], ◌∷◌, none, some, Map, get, put, get-put, get-del,
  string_instance, ◌==◌, if◌then◌else◌, eq_iff, arith, contains, Option-cases, inl, inr,
  get-put_self,
}
use instacloud_oss.Scheduler.{
  Scheduler, entry, seen, fresh_entry, remove, move, begin_hold, end_hold, holds,
}

pub contains-remove :
    (key j : String) (keys : List String)
    → contains j (remove key keys) ≡ (if key == j then false else contains j keys)
unfolding contains
contains-remove key j [] = ground arith
contains-remove key j (k ∷ keys) =
    ground (arith, eq_iff k key, eq_iff k j, eq_iff key j, contains-remove key j keys)

pub contains-remove_self :
    (key : String) (keys : List String) → contains key (remove key keys) ≡ false
contains-remove_self key keys = ground (arith, contains-remove key key keys, eq_iff key key)

-- Looking an entry up leaves every entry as a later look sees it.
pub entry-seen : (key j : String) (s : Scheduler) → entry j (seen key s) ≡ entry j s
unfolding seen
entry-seen key j s = elim (Option-cases (get key s.ledger)) [
  | inl e ↦
      rw (e, seen) (ground (arith, e, get-put key j (fresh_entry s.clock) s.ledger, eq_iff key j))
  | inr (r, e) ↦ rw (e, seen) refl
]

-- A hold that ends leaves the counts of all keys as they were before it began.
pub holds-end_hold-begin_hold :
    (key j : String) (s : Scheduler) → holds j (end_hold key (begin_hold key s)) ≡ holds j s
unfolding begin_hold end_hold
holds-end_hold-begin_hold key j s = ground (
  arith,
  eq_iff key j,
  get-put_self key (holds key s + 1) s.hold_counts,
  get-put key j (holds key s + 1) s.hold_counts,
  get-put key j (holds key s) (put key (holds key s + 1) s.hold_counts),
  get-del key j (put key (holds key s + 1) s.hold_counts),
)

get-move {ℓ} :
    {V : Type ℓ} (from to j : String) (m : Map String V)
    → from ≢ to
    → get j (move from to m) ≡ elim (get from m) [
      | none ↦ get j m
      | some v ↦ (if from == j then none else (if to == j then some v else get j m))
    ]
get-move from to j m h = elim (Option-cases (get from m)) [
  | inl e ↦ rw (e, move) refl
  | inr (v, e) ↦
      rw (e, move) (ground (arith, get-del from j (put to v m), get-put to j v m, eq_iff from to))
]
