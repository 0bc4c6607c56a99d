-- ===== src/Store/Reservations/Kept.antt =====
-- The tests of the three loops of the recovery decide what keeps a claim.
use instacloud_oss.Base.{
  ℕ, ◌≡◌, ◌≢◌, ◌⊎◌, ◌↔◌, inl, inr, refl, sym, ap, ◌∙◌, subst, String, Bool, true, false, List, [],
  ◌∷◌, ◌++◌, Option, none, some, string_instance, nat_instance, list_instance, ◌==◌, ◌&&◌, nat_eq,
  any, contains, flat_map, arith, eq_iff, list_same_iff, Bool-cases, append_assoc,
}
use instacloud_oss.GitDeploy.{units}
use instacloud_oss.Identity.Guard.{starts_with}
use instacloud_oss.Identity.Keys.{after_prefix}
use instacloud_oss.Store.Reservations.{
  AppRow, Branch, Claims, defined, host_of, branch_ports, branch_hosts, ports_in_use, hosts_in_use,
  first_part, is_host_of, branch_stays, lane_stays, host_stays,
}
use instacloud_oss.Store.Reservations.Uses.{
  In, UsesPort, HasHost, Owned, IsHostOf, BranchKept, LaneKept, HostKept, In-append, In-flat_map,
  any_iff, contains_iff, has_iff,
}

In-defined : (x : String) (o : Option String) → In x (defined o) ↔ (o ≡ some x)
In-defined x none = (λ h. absurd h, λ h. absurd (ground (arith, h)))
In-defined x (some y) =
    (λ h. elim h [ inl e ↦ ap some e | inr f ↦ absurd f ], λ h. inl (ground (arith, h)))

In-host_of : (x : String) (o : Option String) → In x (host_of o) ↔ ((o ≡ some x) × (x ≢ ""))
In-host_of x none = (λ h. absurd h, λ h. absurd (ground (arith, h.0)))
In-host_of x (some y) = elim (Bool-cases (y == "")) [
  | inl e ↦ rw e (λ h. absurd h, λ (k, n). absurd (n (ground (arith, k, (eq_iff y "").0 e))))
  | inr e ↦ rw e (
    λ h. elim h [
      | inl k ↦ (ap some k, λ n. ground (arith, e, k, n, eq_iff y ""))
      | inr f ↦ absurd f
    ],
    λ (k, n). inl (ground (arith, k)),
  )
]

In-hosts :
    (x : String) (os : List (Option String))
    → In x (flat_map host_of os) ↔ (In (some x) os × (x ≢ ""))
In-hosts x os =
    let (there, back) = In-flat_map host_of x os in
    (
      λ h.
          let (o, m, k) = there h in
          let (e, n) = (In-host_of x o).0 k in (subst (λ z. In z os) e m, n),
      λ (m, n). back (some x, m, (In-host_of x (some x)).1 (refl, n)),
    )

In-branch_ports :
    (port : String) (b : Branch)
    → In port (branch_ports b)
      ↔ (In port b.lanes ⊎ ((a : AppRow) × In a b.apps × (a.host_port ≡ some port)))
In-branch_ports port b =
    let f = λ (a : AppRow). defined a.host_port in
    let (split, join) = In-append port b.lanes (flat_map f b.apps) in
    let (there, back) = In-flat_map f port b.apps in
    (
      λ h. elim (split h) [
        | inl k ↦ inl k
        | inr k ↦ let (a, m, n) = there k in inr (a, m, (In-defined port a.host_port).0 n)
      ],
      λ h. join (elim h [
        | inl k ↦ inl k
        | inr (a, m, n) ↦ inr (back (a, m, (In-defined port a.host_port).1 n))
      ]),
    )

In-branch_hosts :
    (host : String) (b : Branch)
    → In host (branch_hosts b) ↔ (
        (((a : AppRow) × In a b.apps × (a.host ≡ some host))
          ⊎ (In (some host) b.database_hosts ⊎ In (some host) b.managed_hosts))
        × (host ≢ ""))
In-branch_hosts host b =
    let f = λ (a : AppRow). host_of a.host in
    let (split, join) =
      In-append host (flat_map f b.apps)
        (flat_map host_of b.database_hosts ++ flat_map host_of b.managed_hosts) in
    let (split_rest, join_rest) =
      In-append host (flat_map host_of b.database_hosts) (flat_map host_of b.managed_hosts) in
    let (there, back) = In-flat_map f host b.apps in
    (
      λ h. elim (split h) [
        | inl k ↦
            let (a, m, n) = there k in
            let (e, ne) = (In-host_of host a.host).0 n in (inl (a, m, e), ne)
        | inr k ↦ elim (split_rest k) [
          | inl d ↦ let (m, ne) = (In-hosts host b.database_hosts).0 d in (inr (inl m), ne)
          | inr d ↦ let (m, ne) = (In-hosts host b.managed_hosts).0 d in (inr (inr m), ne)
        ]
      ],
      λ (h, ne). join (elim h [
        | inl (a, m, e) ↦ inl (back (a, m, (In-host_of host a.host).1 (e, ne)))
        | inr k ↦ inr (
            join_rest (elim k [
              | inl d ↦ inl ((In-hosts host b.database_hosts).1 (d, ne))
              | inr d ↦ inr ((In-hosts host b.managed_hosts).1 (d, ne))
            ]))
      ]),
    )

first_part-cut :
    (xs : List ℕ)
    → (any (nat_eq b':') (first_part xs) ≡ false)
      × ((xs ≡ first_part xs) ⊎ ((more : List ℕ) × (xs ≡ first_part xs ++ b':' ∷ more)))
first_part-cut [] = (refl, inl refl)
first_part-cut (c ∷ cs) = elim (Bool-cases (nat_eq c b':')) [
  | inl e ↦ rw e (refl, inr (cs, ground (arith, e)))
  | inr e ↦
      let (n, k) = first_part-cut cs in
      rw e (
        ground (arith, e, n),
        elim k [ inl f ↦ inl (ap (λ x. c ∷ x) f) | inr (more, f) ↦ inr (more, ap (λ x. c ∷ x) f) ],
      )
]

first_part-whole : (ys : List ℕ) → any (nat_eq b':') ys ≡ false → first_part ys ≡ ys
first_part-whole [] n = refl
first_part-whole (c ∷ cs) n = ground (arith, n, first_part-whole cs)

first_part-append :
    (ys more : List ℕ) → any (nat_eq b':') ys ≡ false → first_part (ys ++ b':' ∷ more) ≡ ys
first_part-append [] more n = refl
first_part-append (c ∷ cs) more n = ground (arith, n, first_part-append cs more)

starts_with_iff : (p t : List ℕ) → (starts_with p t ≡ true) ↔ ((more : List ℕ) × (t ≡ p ++ more))
unfolding after_prefix
starts_with_iff [] t = (λ h. (t, refl), λ h. refl)
starts_with_iff (c ∷ p) [] = (λ h. absurd (ground (arith, h)), λ h. absurd (ground (arith, h.1)))
starts_with_iff (c ∷ p) (d ∷ t) =
    let (there, back) = starts_with_iff p t in
    elim (Bool-cases (nat_eq c d)) [
      | inl e ↦ rw e (
        λ h. let (more, k) = there h in (more, ground (arith, e, k)),
        λ (more, k). back (more, ground (arith, k)),
      )
      | inr e ↦ rw e (λ h. absurd (ground (arith, h)), λ (more, k). absurd (ground (arith, e, k)))
    ]

is_host_of_iff : (host label : String) → (is_host_of host label ≡ true) ↔ IsHostOf host label
is_host_of_iff host label =
    let (there, back) = starts_with_iff (units label ++ b'.' ∷ []) (units host) in
    (
      λ h. elim (Bool-cases (host == label)) [
        | inl e ↦ inl ((eq_iff host label).0 e)
        | inr e ↦
            let (more, k) = there (ground (arith, e, h)) in
            inr (more, k ∙ append_assoc (units label) (b'.' ∷ []) more)
      ],
      λ h. elim h [
        | inl e ↦ ground (arith, (eq_iff host label).1 e)
        | inr (more, k) ↦
            ground (arith, back (more, k ∙ sym (append_assoc (units label) (b'.' ∷ []) more)))
      ],
    )

-- A test of two parts decides a pair of conditions.
both_iff :
    {P Q : Type 0} (p q : Bool) → (p ≡ true) ↔ P → (q ≡ true) ↔ Q → ((p && q) ≡ true) ↔ (P × Q)
both_iff true q f g = (λ h. (f.0 refl, g.0 h), λ (x, y). g.1 y)
both_iff false q f g = (λ h. absurd (ground (arith, h)), λ (x, y). f.1 x)

module _ (s : Claims) where
  pub branch_stays_iff :
      (name owner : String) → (branch_stays s name owner ≡ true) ↔ BranchKept s name owner
  unfolding branch_stays
  branch_stays_iff name owner = has_iff owner s.branches

  uses_iff : (port : String) → (contains port (ports_in_use s.branches) ≡ true) ↔ UsesPort s port
  unfolding ports_in_use
  uses_iff port =
      let f = λ (e : String × Branch). branch_ports e.1 in
      let (there, back) = In-flat_map f port s.branches in
      let (found, finds) = contains_iff port (flat_map f s.branches) in
      (
        λ h. let (e, m, k) = there (found h) in (e, m, (In-branch_ports port e.1).0 k),
        λ (e, m, k). finds (back (e, m, (In-branch_ports port e.1).1 k)),
      )

  pub lane_stays_iff :
      (port owner : String) → (lane_stays s port owner ≡ true) ↔ LaneKept s port owner
  unfolding lane_stays
  lane_stays_iff port owner = both_iff _ _ (has_iff owner s.branches) (uses_iff port)

  HasHost-iff : (host : String) → In host (hosts_in_use s.branches) ↔ HasHost s host
  unfolding hosts_in_use
  HasHost-iff host =
      let f = λ (e : String × Branch). branch_hosts e.1 in
      let (there, back) = In-flat_map f host s.branches in
      (
        λ h.
            let (e, m, k) = there h in
            let (row, ne) = (In-branch_hosts host e.1).0 k in (e, m, row, ne),
        λ (e, m, row, ne). back (e, m, (In-branch_hosts host e.1).1 (row, ne)),
      )

  hosted_iff :
      (label : String)
      → (any (λ h. is_host_of h label) (hosts_in_use s.branches) ≡ true)
        ↔ ((host : String) × HasHost s host × IsHostOf host label)
  hosted_iff label =
      let (there, back) = any_iff (λ h. is_host_of h label) (hosts_in_use s.branches) in
      (
        λ h.
            let (host, m, k) = there h in
            (host, (HasHost-iff host).0 m, (is_host_of_iff host label).0 k),
        λ (host, m, k). back (host, (HasHost-iff host).1 m, (is_host_of_iff host label).1 k),
      )

  Owned-iff :
      (owner : String)
      → (any (λ (e : String × Branch). units e.0 == first_part (units owner)) s.branches ≡ true)
        ↔ Owned s owner
  Owned-iff owner =
      let part = first_part (units owner) in
      let (there, back) = any_iff (λ (e : String × Branch). units e.0 == part) s.branches in
      let (n, cut) = first_part-cut (units owner) in
      (
        λ h.
            let (e, m, k) = there h in
            let same = (list_same_iff (units e.0) part).0 k in
            (
              e.0,
              (e.1, m),
              subst (λ x. any (nat_eq b':') x ≡ false) (sym same) n,
              subst (λ x. (units owner ≡ x) ⊎ ((more : List ℕ) × (units owner ≡ x ++ b':' ∷ more)))
                  (sym same) cut,
            ),
        λ (id, (b, m), plain, whole). back (
          (id, b),
          m,
          (list_same_iff (units id) part).1 (elim whole [
            | inl k ↦ sym (ap first_part k ∙ first_part-whole (units id) plain)
            | inr (more, k) ↦ sym (ap first_part k ∙ first_part-append (units id) more plain)
          ]),
        ),
      )

  pub host_stays_iff :
      (label owner : String) → (host_stays s label owner ≡ true) ↔ HostKept s label owner
  unfolding host_stays
  host_stays_iff label owner = both_iff _ _ (Owned-iff owner) (hosted_iff label)
