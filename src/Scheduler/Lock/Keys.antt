-- ===== src/Scheduler/Lock/Keys.antt =====
-- What the lock's entries say after keys were acquired.
use instacloud_oss.Base.{
  ℕ, suc, ◌+◌, ◌<◌, ◌≡◌, subst, String, true, false, List, [], ◌∷◌, ◌++◌, Map, put, string_instance,
  nat_instance, ◌==◌, if◌then◌else◌, filter, contains, length, All, arith, eq_iff, nat_eq_iff,
  Bool-cases, inl, inr, get-put,
}
use instacloud_oss.Scheduler.Lock.{OpEntry, entry_of, extend_chains}

abbrev pub chain_of : String → Map String OpEntry → List ℕ
chain_of j ops = (entry_of j ops).chain

abbrev pub count_of : String → Map String OpEntry → ℕ
count_of j ops = (entry_of j ops).count

abbrev pub occurrences : String → List String → ℕ
occurrences j ks = length (filter (λ k. k == j) ks)

abbrev pub Distinct : List String → Type 0
Distinct [] = Unit
Distinct (k ∷ ks) = (contains k ks ≡ false) × Distinct ks

contains-left : (t : ℕ) (xs ys : List ℕ) → contains t xs ≡ true → contains t (xs ++ ys) ≡ true
unfolding contains
contains-left t [] ys h = cc
contains-left t (x ∷ xs) ys h = ground (arith, h, contains-left t xs ys)

contains-right : (t : ℕ) (xs ys : List ℕ) → contains t ys ≡ true → contains t (xs ++ ys) ≡ true
unfolding contains
contains-right t [] ys h = h
contains-right t (x ∷ xs) ys h = ground (arith, contains-right t xs ys h)

All-append :
    (n : ℕ) (xs ys : List ℕ)
    → All (λ w. w < n) xs
    → All (λ w. w < n) ys
    → All (λ w. w < n) (xs ++ ys)
All-append n [] ys h k = k
All-append n (x ∷ xs) ys h k = (h.0, All-append n xs ys h.1 k)

abbrev longer : ℕ → String → Map String OpEntry → OpEntry
longer id k ops = record { chain = chain_of k ops ++ (id ∷ []); count = suc (count_of k ops) }

pub entry-put :
    (k j : String) (e : OpEntry) (ops : Map String OpEntry)
    → entry_of j (put k e ops) ≡ (if k == j then e else entry_of j ops)
entry-put k j e ops = ground (arith, get-put k j e ops)

chain-other :
    (k j : String) (e : OpEntry) (ops : Map String OpEntry)
    → (k == j) ≡ false
    → chain_of j ops ≡ chain_of j (put k e ops)
chain-other k j e ops h = ground (arith, h, entry-put k j e ops)

chain-same :
    (k j : String) (e : OpEntry) (ops : Map String OpEntry)
    → (k == j) ≡ true
    → e.chain ≡ chain_of j (put k e ops)
chain-same k j e ops h = ground (arith, h, entry-put k j e ops)

pub count-extend :
    (j : String) (id : ℕ) (ks : List String) (ops : Map String OpEntry)
    → count_of j (extend_chains id ks ops).1 ≡ count_of j ops + occurrences j ks
unfolding extend_chains
count-extend j id [] ops = omega arith
count-extend j id (k ∷ ks) ops = ground (
  arith,
  count-extend j id ks (put k (longer id k ops) ops),
  entry-put k j (longer id k ops) ops,
  eq_iff k j,
)

put-keeps :
    (j k : String) (t id : ℕ) (ops : Map String OpEntry)
    → contains t (chain_of j ops) ≡ true
    → contains t (chain_of j (put k (longer id k ops) ops)) ≡ true
put-keeps j k t id ops h = ground (
  arith,
  h,
  entry-put k j (longer id k ops) ops,
  eq_iff k j,
  contains-left t (chain_of k ops) (id ∷ []),
)

pub chain-extend :
    (j : String) (t id : ℕ) (ks : List String) (ops : Map String OpEntry)
    → contains t (chain_of j ops) ≡ true
    → contains t (chain_of j (extend_chains id ks ops).1) ≡ true
unfolding extend_chains
chain-extend j t id [] ops h = h
chain-extend j t id (k ∷ ks) ops h =
    chain-extend j t id ks (put k (longer id k ops) ops) (put-keeps j k t id ops h)

contains_self : (id : ℕ) (xs : List ℕ) → contains id (xs ++ (id ∷ [])) ≡ true
contains_self id xs =
    contains-right id xs (id ∷ []) (unfold contains in ground (arith, nat_eq_iff id id))

-- The gate is at the end of the chain of each of its keys.
pub chain-enter :
    (j : String) (id : ℕ) (ks : List String) (ops : Map String OpEntry)
    → contains j ks ≡ true
    → contains id (chain_of j (extend_chains id ks ops).1) ≡ true
unfolding extend_chains contains
chain-enter j id [] ops h = cc
chain-enter j id (k ∷ ks) ops h =
    let there = chain-extend j id id ks (put k (longer id k ops) ops) in
    ground (
      arith,
      h,
      there,
      eq_iff k j,
      contains_self id (chain_of k ops),
      entry-put k j (longer id k ops) ops,
      chain-enter j id ks (put k (longer id k ops) ops),
    )

-- It waits for whoever was on the chain of one of its keys.
pub waits-extend :
    (j : String) (t id : ℕ) (ks : List String) (ops : Map String OpEntry)
    → contains j ks ≡ true
    → contains t (chain_of j ops) ≡ true
    → contains t (extend_chains id ks ops).0 ≡ true
unfolding extend_chains
waits-extend j t id [] ops h c = unfold contains in cc
waits-extend j t id (k ∷ ks) ops h c =
    let rest = (extend_chains id ks (put k (longer id k ops) ops)).0 in
    elim (Bool-cases (k == j)) [
      | inl e ↦ contains-left t (chain_of k ops) rest (ground (arith, e, c, eq_iff k j))
      | inr e ↦ contains-right t (chain_of k ops) rest (
          waits-extend j t id ks (put k (longer id k ops) ops)
            (unfold contains in ground (arith, h, e)) (put-keeps j k t id ops c))
    ]

-- Everything on a chain came before a number.
abbrev pub IsBelow : ℕ → Map String OpEntry → Type 0
IsBelow n ops = (j : String) → All (λ w. w < n) (chain_of j ops)

-- The gate does not wait for itself, since its keys are distinct.
pub waits-below :
    (n id : ℕ) (ks : List String) (ops : Map String OpEntry)
    → Distinct ks
    → ((j : String) → contains j ks ≡ true → All (λ w. w < n) (chain_of j ops))
    → All (λ w. w < n) (extend_chains id ks ops).0
unfolding extend_chains
waits-below n id [] ops d h = tt
waits-below n id (k ∷ ks) ops d h =
    All-append n (chain_of k ops) (extend_chains id ks (put k (longer id k ops) ops)).0
      (h k (unfold contains in ground (arith, eq_iff k k)))
      (waits-below n id ks (put k (longer id k ops) ops) d.1 (λ j c. elim (Bool-cases (k == j)) [
        | inl e ↦ absurd (ground (arith, e, c, d.0, eq_iff k j))
        | inr e ↦
            subst (All (λ w. w < n)) (chain-other k j (longer id k ops) ops e)
              (h j (unfold contains in ground (arith, c)))
      ]))

pub IsBelow-extend :
    (n id : ℕ) (ks : List String) (ops : Map String OpEntry)
    → id < n
    → IsBelow n ops
    → IsBelow n (extend_chains id ks ops).1
unfolding extend_chains
IsBelow-extend n id [] ops l h = h
IsBelow-extend n id (k ∷ ks) ops l h = IsBelow-extend n id ks (put k (longer id k ops) ops) l (λ j.
    elim (Bool-cases (k == j)) [
      | inl e ↦
          subst (All (λ w. w < n)) (chain-same k j (longer id k ops) ops e)
            (All-append n (chain_of k ops) (id ∷ []) (h k) (l, tt))
      | inr e ↦ subst (All (λ w. w < n)) (chain-other k j (longer id k ops) ops e) (h j)
    ])
