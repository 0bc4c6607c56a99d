-- ===== src/Scheduler/Lock/Steps.antt =====
-- The lock over any calls and any ends of operations, in any order.
use instacloud_oss.Base.{
  ◌≡◌, inl, inr, refl, String, Bool, true, false, List, [], ◌∷◌, get, string_instance, nat_instance,
  ◌==◌, not, filter, contains, any, arith, Bool-cases, ltb,
}
use instacloud_oss.Scheduler.Lock.{
  Gate, OpLock, entry_of, leave, is_admitted, dedup, needed, enter, with_op, try_with_op,
}
use instacloud_oss.Scheduler.Lock.Keys.{Distinct}
use instacloud_oss.Scheduler.Lock.Invariant.{In, IsSound, enqueue_all-IsSound, leave-IsSound}

abbrev pub idle_lock : OpLock
idle_lock = record { next = 0; ops = []; gates = [] }

contains-filter :
    (p : String → Bool) (k : String) (ks : List String)
    → contains k ks ≡ false
    → contains k (filter p ks) ≡ false
unfolding contains
contains-filter p k [] h = refl
contains-filter p k (j ∷ ks) h = ground (arith, h, contains-filter p k ks)

filter-Distinct : (p : String → Bool) (ks : List String) → Distinct ks → Distinct (filter p ks)
filter-Distinct p [] d = d
filter-Distinct p (k ∷ ks) d = elim (Bool-cases (p k)) [
  | inl e ↦ rw (e, filter) (contains-filter p k ks d.0, filter-Distinct p ks d.1)
  | inr e ↦ rw (e, filter) (filter-Distinct p ks d.1)
]

contains-without :
    (k : String) (ks : List String) → contains k (filter (λ j. not (j == k)) ks) ≡ false
unfolding contains
contains-without k [] = refl
contains-without k (j ∷ ks) = ground (arith, contains-without k ks)

dedup-Distinct : (ks : List String) → Distinct (dedup ks)
unfolding dedup
dedup-Distinct [] = tt
dedup-Distinct (k ∷ ks) = (
  contains-without k (dedup ks),
  filter-Distinct (λ j. not (j == k)) (dedup ks) (dedup-Distinct ks),
)

module _ (sort : List String → List String)
    (sorts : (ks : List String) → Distinct ks → Distinct (sort ks)) where
  needed-Distinct : (inherited keys : List String) → Distinct (needed sort inherited keys)
  unfolding needed
  needed-Distinct inherited keys =
      sorts (filter (λ k. not (contains k inherited)) (dedup keys))
        (filter-Distinct (λ k. not (contains k inherited)) (dedup keys) (dedup-Distinct keys))

  -- A call of one of the two operations, or the end of an operation that runs.
  pub data Step : OpLock → OpLock → Type 0 where
    calls : (inherited keys : List String) (l : OpLock) → Step l (with_op sort inherited keys l).1
    tries :
        (inherited keys : List String) (l : OpLock) → Step l (try_with_op sort inherited keys l).1
    ends :
        (g : Gate) (l : OpLock)
        → In g l.gates
        → is_admitted g l ≡ true
        → Step l (leave g.id g.keys l)

  pub data Reachable : OpLock → Type 0 where
    begins : Reachable idle_lock
    goes : (l m : OpLock) → Reachable l → Step l m → Reachable m

  enter-IsSound :
      (keys : List String) (l : OpLock) → Distinct keys → IsSound l → IsSound (enter sort keys l).1
  unfolding enter
  enter-IsSound [] l d s = s
  enter-IsSound (k ∷ ks) l d s = enqueue_all-IsSound (k ∷ ks) l d s

  with_op-IsSound :
      (inherited keys : List String) (l : OpLock)
      → IsSound l
      → IsSound (with_op sort inherited keys l).1
  unfolding with_op
  with_op-IsSound inherited keys l s =
      enter-IsSound (needed sort inherited keys) l (needed-Distinct inherited keys) s

  Step-IsSound : (l m : OpLock) → Step l m → IsSound l → IsSound m
  unfolding try_with_op
  Step-IsSound _ _ (calls inherited keys l) s = with_op-IsSound inherited keys l s
  Step-IsSound _ _ (tries inherited keys l) s =
      elim (Bool-cases (any (λ k. ltb 0 (entry_of k l.ops).count) (needed sort inherited keys))) [
        | inl e ↦ rw (e, try_with_op) s
        | inr e ↦ rw (e, try_with_op) (with_op-IsSound inherited keys l s)
      ]
  Step-IsSound _ _ (ends g l m r) s = leave-IsSound l g m (ground (arith, r)) s

  -- The invariant holds in every state that calls and ends of operations lead to.
  pub Reachable-IsSound : (l : OpLock) → Reachable l → IsSound l
  Reachable-IsSound _ begins = record {
    ids = tt;
    below = λ j. unfold get in tt;
    waits = λ g m. absurd m;
    counts = λ k. unfold get in refl;
    chained = λ g k m. absurd m;
    ordered = λ g h k m. absurd m;
  }
  Reachable-IsSound _ (goes l m r s) = Step-IsSound l m s (Reachable-IsSound l r)
