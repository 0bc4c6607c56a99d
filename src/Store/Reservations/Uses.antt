-- ===== src/Store/Reservations/Uses.antt =====
-- Which branches live, and which ports and hosts their rows use, said without the sets that the
-- recovery of reservations builds.
use instacloud_oss.Base.{
  ℕ, ◌≡◌, ◌≢◌, ◌⊎◌, ◌↔◌, inl, inr, refl, sym, ap, subst, String, Bool, true, false, List, [], ◌∷◌,
  ◌++◌, some, Map, has, get, string_instance, nat_instance, list_instance, ◌==◌, nat_eq, any,
  contains, flat_map, arith, eq_iff, Bool-cases,
}
use instacloud_oss.GitDeploy.{units}
use instacloud_oss.Store.Reservations.{AppRow, Branch, Claims}

-- An element stands in a list.
abbrev pub In : {A : Type 0} → A → List A → Type 0
In a [] = ⊥
In a (x ∷ xs) = (x ≡ a) ⊎ In a xs

-- The host is the label, or the label with a dot and a domain.
abbrev pub IsHostOf : String → String → Type 0
IsHostOf host label = (host ≡ label) ⊎ ((more : List ℕ) × (units host ≡ units label ++ b'.' ∷ more))

module _ (s : Claims) where
  abbrev pub Lives : String → Type 0
  Lives id = (b : Branch) × In (id, b) s.branches

  -- A lane or an app of some branch has the port.
  abbrev pub UsesPort : String → Type 0
  UsesPort port =
      (e : String × Branch) × In e s.branches
      × (In port e.1.lanes ⊎ ((a : AppRow) × In a e.1.apps × (a.host_port ≡ some port)))

  -- A row of some branch has the host, which is not empty.
  abbrev pub HasHost : String → Type 0
  HasHost host =
      (e : String × Branch) × In e s.branches
      × (((a : AppRow) × In a e.1.apps × (a.host ≡ some host))
          ⊎ (In (some host) e.1.database_hosts ⊎ In (some host) e.1.managed_hosts))
      × (host ≢ "")

  -- The owner of a host claim is a branch or a service of a branch: its key is the id of the branch,
  -- alone or followed by a colon and more.
  abbrev pub Owned : String → Type 0
  Owned owner =
      (id : String) × Lives id
      × (any (nat_eq b':') (units id) ≡ false)
      × ((units owner ≡ units id) ⊎ ((more : List ℕ) × (units owner ≡ units id ++ b':' ∷ more)))

  -- What keeps a claim of each kind.
  abbrev pub BranchKept : String → String → Type 0
  BranchKept name owner = Lives owner

  abbrev pub LaneKept : String → String → Type 0
  LaneKept port owner = Lives owner × UsesPort port

  abbrev pub HostKept : String → String → Type 0
  HostKept label owner = Owned owner × ((host : String) × HasHost host × IsHostOf host label)

pub In-append : {A : Type 0} (a : A) (xs ys : List A) → In a (xs ++ ys) ↔ (In a xs ⊎ In a ys)
In-append a [] ys = (λ h. inr h, λ h. elim h [ inl f ↦ absurd f | inr g ↦ g ])
In-append a (x ∷ xs) ys =
    let (there, back) = In-append a xs ys in
    (
      λ h. elim h [
        | inl e ↦ inl (inl e)
        | inr k ↦ elim (there k) [ inl f ↦ inl (inr f) | inr g ↦ inr g ]
      ],
      λ h. elim h [
        | inl k ↦ elim k [ inl e ↦ inl e | inr f ↦ inr (back (inl f)) ]
        | inr g ↦ inr (back (inr g))
      ],
    )

pub In-flat_map :
    {A B : Type 0} (f : A → List B) (b : B) (xs : List A)
    → In b (flat_map f xs) ↔ ((x : A) × In x xs × In b (f x))
In-flat_map f b [] = (λ h. absurd h, λ (x, h, k). absurd h)
In-flat_map {A} f b (x ∷ xs) =
    let (there, back) = In-flat_map f b xs in
    let (split, join) = In-append b (f x) (flat_map f xs) in
    (
      λ h. elim (split h) [
        | inl k ↦ (x, inl refl, k)
        | inr k ↦ let (y, m, n) = there k in (y, inr m, n)
      ],
      λ (y, m, n). join (elim m [
        | inl e ↦ inl (subst (λ z. In b (f z)) (sym e) n)
        | inr k ↦ inr (back (y, k, n))
      ]),
    )

pub any_iff :
    {A : Type 0} (p : A → Bool) (xs : List A)
    → (any p xs ≡ true) ↔ ((x : A) × In x xs × (p x ≡ true))
any_iff p [] = (λ h. absurd (ground (arith, h)), λ (x, m, k). absurd m)
any_iff p (x ∷ xs) =
    let (there, back) = any_iff p xs in
    (
      λ h. elim (Bool-cases (p x)) [
        | inl e ↦ (x, inl refl, e)
        | inr e ↦ let (y, m, k) = there (ground (arith, e, h)) in (y, inr m, k)
      ],
      λ (y, m, k). elim m [
        | inl e ↦ ground (arith, subst (λ z. p z ≡ true) (sym e) k)
        | inr n ↦ ground (arith, back (y, n, k))
      ],
    )

pub contains_iff : (a : String) (xs : List String) → (contains a xs ≡ true) ↔ In a xs
unfolding contains
contains_iff a [] = (λ h. absurd (ground (arith, h)), λ h. absurd h)
contains_iff a (x ∷ xs) =
    let (there, back) = contains_iff a xs in
    (
      λ h. elim (Bool-cases (x == a)) [
        | inl e ↦ inl ((eq_iff x a).0 e)
        | inr e ↦ inr (there (ground (arith, e, h)))
      ],
      λ h. elim h [ inl e ↦ ground (arith, (eq_iff x a).1 e) | inr k ↦ ground (arith, back k) ],
    )

pub has_iff : (k : String) (m : Map String Branch) → (has k m ≡ true) ↔ ((b : Branch) × In (k, b) m)
unfolding get
has_iff k [] = (λ h. absurd (ground (arith, h)), λ (b, h). absurd h)
has_iff k ((j, b) ∷ m) =
    let (there, back) = has_iff k m in
    (
      λ h. elim (Bool-cases (j == k)) [
        | inl e ↦ (b, inl (ap (λ x. (x, b)) ((eq_iff j k).0 e)))
        | inr e ↦ let (c, n) = there (ground (arith, e, h)) in (c, inr n)
      ],
      λ (c, n). elim n [
        | inl e ↦ ground (arith, (eq_iff j k).1 (ap (λ x. x.0) e))
        | inr i ↦ ground (arith, back (c, i))
      ],
    )
