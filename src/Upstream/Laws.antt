-- ===== src/Upstream/Laws.antt =====
-- Whose address the cache may answer.
use instacloud_oss.Base.{
  ℕ, ◌+◌, ◌≡◌, ◌≢◌, ◌≤◌, ◌<◌, ◌⊎◌, refl, String, Bool, true, false, List, [], ◌∷◌, Option, none,
  some, Map, get, put, del, pair_instance, string_instance, nat_instance, ◌==◌, ◌&&◌, not,
  if◌then◌else◌, ltb, filter, eq_iff, arith, All, Bool-cases, Option-cases, inl, inr, get-put_self,
  get-del_self,
}
use instacloud_oss.Upstream.{
  Upstream, UpstreamAddr, Cached, Docker, lookup, keep_answer, resolve, forget, forget_if_changed,
}

module _ {K V : Type 0} ⦃e : instacloud_oss.Base.Eq K⦄ where
  -- An entry that a filter leaves passes its test.
  get-filter_passes :
      (p : K × V → Bool) (m : Map K V) (k : K) (v : V)
      → get k (filter p m) ≡ some v
      → p (k, v) ≡ true
  unfolding get
  get-filter_passes p [] k v h = ground arith
  get-filter_passes p ((j, w) ∷ m) k v h = elim (Bool-cases (p (j, w))) [
    | inr f ↦ get-filter_passes p m k v (ground arith)
    | inl f ↦ elim (Bool-cases (j == k)) [
      | inl g ↦ ground (arith, e.same_iff j k)
      | inr g ↦ get-filter_passes p m k v (ground arith)
    ]
  ]

  -- A filter leaves the keys alone whose entries all pass.
  get-filter_other :
      (p : K × V → Bool) (m : Map K V) (k : K)
      → ((v : V) → p (k, v) ≡ true)
      → get k (filter p m) ≡ get k m
  unfolding get
  get-filter_other p [] k h = refl
  get-filter_other p ((j, w) ∷ m) k h = elim (Bool-cases (j == k)) [
    | inl g ↦ ground (arith, h w, e.same_iff j k)
    | inr g ↦ ground (arith, get-filter_other p m k h)
  ]

-- After the sweep saw a container with an id, the cache has no address of another container under
-- its name, and the addresses of all other names are as before.
pub forget_if_changed_lem :
    (container id : String) (s : Upstream) (other : String) (port : ℕ)
    → let after = forget_if_changed container id s in
      ((hit : Cached) → get (container, port) after.cache ≡ some hit → hit.addr.container_id ≡ id)
      × (other ≢ container → get (other, port) after.cache ≡ get (other, port) s.cache)
unfolding forget_if_changed
forget_if_changed_lem container id s other port =
    let p = λ (e : (String × ℕ) × Cached).
      not (e.0.0 == container && not (e.1.addr.container_id == id)) in
    (
      λ hit h. ground (
        arith,
        get-filter_passes p s.cache (container, port) hit h,
        eq_iff container container,
        eq_iff hit.addr.container_id id,
      ),
      λ ne.
          get-filter_other p s.cache (other, port)
            (λ v. ground (arith, ne, eq_iff other container)),
    )

get-forget :
    (container : String) (port : ℕ) (s : Upstream)
    → get (container, port) (forget container s).cache ≡ none
unfolding forget
get-forget container port s =
    let p = λ (e : (String × ℕ) × Cached). not (e.0.0 == container) in
    elim (Option-cases (get (container, port) (filter p s.cache))) [
      | inl e ↦ e
      | inr (hit, e) ↦ absurd (
          ground (
            arith,
            get-filter_passes p s.cache (container, port) hit e,
            eq_iff container container,
          ))
    ]

-- After a sleep, a wake or a dial error has forgotten a container, the next resolve of any of its
-- ports answers what docker says then, and never an address that was cached before.
pub resolve-forget :
    (docker : Docker) (is_server : Bool) (ttl : ℕ) (container network : String) (port : ℕ)
    (s : Upstream)
    → (resolve docker is_server ttl container network port (forget container s)).0
      ≡ (lookup docker is_server ttl container network port (forget container s)).0
unfolding resolve keep_answer
resolve-forget docker is_server ttl container network port s =
    rw (get-forget container port s, resolve)
      (same (lookup docker is_server ttl container network port (forget container s)))
  where
    same :
        (answer : Option UpstreamAddr × Upstream)
        → (keep_answer docker is_server ttl container port answer).0 ≡ answer.0
    same (none, t) = refl
    same (some a, t) = refl
