-- ===== src/Scheduler/Lock/Release.antt =====
-- What the lock's entries say after keys were released.
use instacloud_oss.Base.{
  ℕ, ◌-◌, ◌<◌, ◌≡◌, refl, subst, ◌∙◌, String, List, [], ◌∷◌, Map, get, string_instance,
  nat_instance, ◌==◌, ◌&&◌, ◌⊎◌, if◌then◌else◌, leb, All, arith, eq_iff, Bool-cases, Option-cases,
  inl, inr, get-put, get-del,
}
use instacloud_oss.Scheduler.Lock.{OpEntry, release_key, release_keys}
use instacloud_oss.Scheduler.Lock.Keys.{chain_of, count_of, occurrences, IsBelow}

count-release_key :
    (j k : String) (ops : Map String OpEntry)
    → count_of j (release_key k ops) ≡ count_of j ops - (if k == j then 1 else 0)
unfolding release_key
count-release_key j k ops = elim (Option-cases (get k ops)) [
  | inl e ↦ ground (arith, e, eq_iff k j)
  | inr (x, e) ↦
      ground
        (arith, e, eq_iff k j, get-del k j ops, get-put k j (record x { count = x.count - 1 }) ops)
]

-- A key that is still counted keeps its chain.
chain-release_key :
    (j k : String) (ops : Map String OpEntry)
    → 0 < count_of j (release_key k ops)
    → chain_of j (release_key k ops) ≡ chain_of j ops
unfolding release_key
chain-release_key j k ops h = elim (Option-cases (get k ops)) [
  | inl e ↦ ground (arith, e)
  | inr (x, e) ↦
      ground (
        arith,
        e,
        h,
        eq_iff k j,
        get-del k j ops,
        get-put k j (record x { count = x.count - 1 }) ops,
      )
]

pub count-release :
    (j : String) (ks : List String) (ops : Map String OpEntry)
    → count_of j (release_keys ks ops) ≡ count_of j ops - occurrences j ks
unfolding release_keys
count-release j [] ops = omega arith
count-release j (k ∷ ks) ops =
    ground (arith, count-release j ks (release_key k ops), count-release_key j k ops)

pub chain-release :
    (j : String) (ks : List String) (ops : Map String OpEntry)
    → 0 < count_of j (release_keys ks ops)
    → chain_of j (release_keys ks ops) ≡ chain_of j ops
unfolding release_keys
chain-release j [] ops h = refl
chain-release j (k ∷ ks) ops h =
    chain-release j ks (release_key k ops) h
    ∙ chain-release_key j k ops (omega (arith, count-release j ks (release_key k ops), h))

chain-release_key_cases :
    (j k : String) (ops : Map String OpEntry)
    → ([] ≡ chain_of j (release_key k ops)) ⊎ (chain_of j ops ≡ chain_of j (release_key k ops))
unfolding release_key
chain-release_key_cases j k ops = elim (Option-cases (get k ops)) [
  | inl e ↦ inr (ground (arith, e))
  | inr (x, e) ↦ elim (Bool-cases (leb x.count 1 && (k == j))) [
    | inl f ↦ inl (ground (arith, e, f, eq_iff k j, get-del k j ops))
    | inr f ↦ inr (
        ground (
          arith,
          e,
          f,
          eq_iff k j,
          get-del k j ops,
          get-put k j (record x { count = x.count - 1 }) ops,
        ))
  ]
]

IsBelow-release_key :
    (n : ℕ) (k : String) (ops : Map String OpEntry) → IsBelow n ops → IsBelow n (release_key k ops)
IsBelow-release_key n k ops h j = elim (chain-release_key_cases j k ops) [
  | inl e ↦ subst (All (λ w. w < n)) e tt
  | inr e ↦ subst (All (λ w. w < n)) e (h j)
]

pub IsBelow-release :
    (n : ℕ) (ks : List String) (ops : Map String OpEntry)
    → IsBelow n ops
    → IsBelow n (release_keys ks ops)
unfolding release_keys
IsBelow-release n [] ops h = h
IsBelow-release n (k ∷ ks) ops h =
    IsBelow-release n ks (release_key k ops) (IsBelow-release_key n k ops h)
