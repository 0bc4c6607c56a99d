-- ===== src/Scheduler/Snapshot/Laws.antt =====
-- What a listing does to the snapshot, name by name.
use instacloud_oss.Base.{
  ℕ, ◌≡◌, refl, String, Bool, false, [], ◌∷◌, Option, none, some, Map, get, has, get-put, get-del,
  string_instance, ◌==◌, ◌||◌, if◌then◌else◌, leb, eq_iff, arith, Option-cases, inl, inr,
}
use instacloud_oss.Scheduler.{Container, Observed}
use instacloud_oss.Scheduler.Snapshot.{
  Listing, observe, take_one, take_all, drop_one, drop_all, absorb,
}

-- The keys that a loop over the entries of a map visits.
visits {ℓ} : {V : Type ℓ} → String → Map String V → Bool
visits j [] = false
visits j ((k, v) ∷ rest) = k == j || visits j rest

visits_of_get {ℓ} :
    {V : Type ℓ} (j : String) (m : Map String V) → visits j m ≡ false → get j m ≡ none
unfolding visits get
visits_of_get j [] h = refl
visits_of_get j ((k, v) ∷ rest) h = ground (arith, visits_of_get j rest)

-- The entry that a listing leaves for a name: what it says, unless something was learned since.
abbrev pub merge : ℕ → Option Container → Option Observed → Option Observed
merge at none none = none
merge at none (some known) = if leb known.at at then none else some known
merge at (some c) none = some (record { state = c.state; id = c.id; at = at })
merge at (some c) (some known) =
    if leb known.at at then some (record { state = c.state; id = c.id; at = at }) else some known

module _ (containers : Listing) (at : ℕ) where
  abbrev taken : Option Container → Option Observed → Option Observed
  taken none o = o
  taken (some c) o = merge at (some c) o

  get-take_one :
      (name j : String) (next : Map String Observed)
      → get j (take_one containers at name next)
        ≡ (if name == j then taken (get j containers) (get j next) else get j next)
  unfolding take_one
  get-take_one name j next = elim (Option-cases (get name containers)) [
    | inl e ↦ rw (e, take_one) (ground (arith, eq_iff name j))
    | inr (c, e) ↦
        rw (e, take_one)
          (ground (arith, eq_iff name j, get-put name j (observe containers at c) next))
  ]

  get-drop_one :
      (name j : String) (next : Map String Observed)
      → get j (drop_one containers at name next) ≡ (
          if name == j
          then (if has j containers then get j next else merge at none (get j next))
          else get j next)
  unfolding drop_one
  get-drop_one name j next = ground (arith, eq_iff name j, get-del name j next)

  get-take_all :
      (rest : Listing) (j : String) (next : Map String Observed)
      → get j (take_all containers at rest next)
        ≡ (if visits j rest then taken (get j containers) (get j next) else get j next)
  unfolding take_all visits
  get-take_all [] j next = refl
  get-take_all ((name, c) ∷ rest) j next =
      ground
        (arith, get-take_all rest j (take_one containers at name next), get-take_one name j next)

  get-drop_all :
      (rest : Map String Observed) (j : String) (next : Map String Observed)
      → get j (drop_all containers at rest next) ≡ (
          if visits j rest
          then (if has j containers then get j next else merge at none (get j next))
          else get j next)
  unfolding drop_all visits
  get-drop_all [] j next = refl
  get-drop_all ((name, c) ∷ rest) j next =
      ground
        (arith, get-drop_all rest j (drop_one containers at name next), get-drop_one name j next)

  -- After a listing that was issued at `at` is folded in, the snapshot says of every name what the
  -- listing says, dated from when it was issued, except that an observation made later stays.
  -- A name that the listing lacks is dropped, unless it was observed later.
  pub get-absorb :
      (j : String) (cache : Map String Observed)
      → get j (absorb containers at cache) ≡ merge at (get j containers) (get j cache)
  unfolding absorb
  get-absorb j cache =
      let next = take_all containers at containers cache in
      ground (
        arith,
        get-take_all containers j cache,
        get-drop_all next j next,
        visits_of_get j containers,
        visits_of_get j next,
      )
