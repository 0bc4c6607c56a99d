-- ===== src/Metrics/Keys.antt =====
-- The keys of the buckets of a query, and their sort.
use instacloud_oss.Base.{
  ℕ, ◌≡◌, ◌≢◌, ◌<◌, sym, List, [], ◌∷◌, Map, put, nat_instance, string_instance, ◌==◌, leb, arith,
  All, Bool-cases, inl, inr,
}
use instacloud_oss.Metrics.Query.{insert, sort, keys}

abbrev pub Distinct : List ℕ → Type 0
Distinct [] = Unit
Distinct (k ∷ ks) = All (λ j. k ≢ j) ks × Distinct ks

abbrev pub Ascends : List ℕ → Type 0
Ascends [] = Unit
Ascends (k ∷ ks) = All (λ j. k < j) ks × Ascends ks

-- The sort

module _ (P : ℕ → Type 0) where
  pub All-insert : (k : ℕ) (ks : List ℕ) → P k → All P ks → All P (insert k ks)
  unfolding insert
  All-insert k [] p ps = (p, tt)
  All-insert k (j ∷ js) p (q, qs) = elim (Bool-cases (leb k j)) [
    | inl e ↦ rw e (p, (q, qs))
    | inr e ↦ rw e (q, All-insert k js p qs)
  ]

  pub All-sort : (ks : List ℕ) → All P ks → All P (sort ks)
  unfolding sort
  All-sort [] ps = tt
  All-sort (k ∷ ks) (p, ps) = All-insert k (sort ks) p (All-sort ks ps)

pub less_than-All : (k j : ℕ) (js : List ℕ) → k < j → All (λ i. j < i) js → All (λ i. k < i) js
less_than-All k j [] h hs = tt
less_than-All k j (i ∷ is) h (l, ls) = (omega arith, less_than-All k j is h ls)

pub insert-Ascends :
    (k : ℕ) (ks : List ℕ) → All (λ j. k ≢ j) ks → Ascends ks → Ascends (insert k ks)
unfolding insert
insert-Ascends k [] d a = (tt, tt)
insert-Ascends k (j ∷ js) (d, ds) (a, rest) = elim (Bool-cases (leb k j)) [
  | inl e ↦
      let before : k < j = ground (arith, d) in
      rw e ((before, less_than-All k j js before a), (a, rest))
  | inr e ↦ rw e (All-insert (λ i. j < i) k js (ground (arith, d)) a, insert-Ascends k js ds rest)
]

pub sort-Ascends : (ks : List ℕ) → Distinct ks → Ascends (sort ks)
unfolding sort
sort-Ascends [] d = tt
sort-Ascends (k ∷ ks) (d, ds) =
    insert-Ascends k (sort ks) (All-sort (λ j. k ≢ j) ks d) (sort-Ascends ks ds)

-- The keys

module _ {V : Type 0} where
  pub All-keys-put :
      (P : ℕ → Type 0) (k : ℕ) (v : V) (m : Map ℕ V)
      → P k
      → All P (keys m)
      → All P (keys (put k v m))
  unfolding put
  All-keys-put P k v [] p ps = (p, tt)
  All-keys-put P k v ((j, w) ∷ m) p (q, qs) = elim (Bool-cases (j == k)) [
    | inl e ↦ rw e (p, qs)
    | inr e ↦ rw e (q, All-keys-put P k v m p qs)
  ]

  pub keys-put-Distinct :
      (k : ℕ) (v : V) (m : Map ℕ V) → Distinct (keys m) → Distinct (keys (put k v m))
  unfolding put
  keys-put-Distinct k v [] d = (tt, tt)
  keys-put-Distinct k v ((j, w) ∷ m) (d, ds) = elim (Bool-cases (j == k)) [
    | inl e ↦ let same : j ≡ k = ground arith in rw (e, sym same) (d, ds)
    | inr e ↦
        let other : j ≢ k = ground arith in
        rw e (All-keys-put (λ i. j ≢ i) k v m other d, keys-put-Distinct k v m ds)
  ]
