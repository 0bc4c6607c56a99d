-- ===== src/Store/Reservations/Laws.antt =====
-- What the recovery of reservations keeps and what it releases.
use instacloud_oss.Base.{
  ◌≡◌, ◌↔◌, refl, String, Bool, true, List, [], ◌∷◌, Map, arith, Bool-cases, inl, inr,
}
use instacloud_oss.Store.Reservations.{
  Claims, sift, branch_stays, lane_stays, host_stays, reclaim_abandoned_reservations,
}
use instacloud_oss.Store.Reservations.Uses.{BranchKept, LaneKept, HostKept}
use instacloud_oss.Store.Reservations.Kept.{branch_stays_iff, lane_stays_iff, host_stays_iff}

-- The claims of before, in their order, each either among those that stay, because something keeps
-- it, or with its name among the released, because nothing does.
pub data Sifted (Kept : String → String → Type 0)
    : Map String String → Map String String → List String → Type 0 where
  done : Sifted Kept [] [] []
  keeps :
      {name owner : String} {m stay : Map String String} {gone : List String}
      → Kept name owner
      → Sifted Kept m stay gone
      → Sifted Kept ((name, owner) ∷ m) ((name, owner) ∷ stay) gone
  releases :
      {name owner : String} {m stay : Map String String} {gone : List String}
      → ¬ Kept name owner
      → Sifted Kept m stay gone
      → Sifted Kept ((name, owner) ∷ m) stay (name ∷ gone)

sift-Sifted :
    (Kept : String → String → Type 0) (stays : String → String → Bool) (m : Map String String)
    → ((name owner : String) → (stays name owner ≡ true) ↔ Kept name owner)
    → Sifted Kept m (sift stays m).0 (sift stays m).1
unfolding sift
sift-Sifted Kept stays [] h = done
sift-Sifted Kept stays ((name, owner) ∷ rest) h =
    let later = sift-Sifted Kept stays rest h in
    elim (Bool-cases (stays name owner)) [
      | inl e ↦ rw (e, sift) (keeps ((h name owner).0 e) later)
      | inr e ↦ rw (e, sift) (releases (λ k. ground (arith, e, (h name owner).1 k)) later)
    ]

sift-again :
    (stays : String → String → Bool) (m : Map String String)
    → sift stays (sift stays m).0 ≡ ((sift stays m).0, [])
unfolding sift
sift-again stays [] = refl
sift-again stays ((name, owner) ∷ rest) = ground (arith, sift-again stays rest)

-- What the boot's recovery leaves, and what it reports.
abbrev pub Recovered : Claims → Type 0
Recovered s =
    let (released, after) = reclaim_abandoned_reservations s in
    Sifted (BranchKept s) s.branch_reservations after.branch_reservations released.branches
    × Sifted (LaneKept s) s.lane_reservations after.lane_reservations released.lanes
    × Sifted (HostKept s) s.host_reservations after.host_reservations released.hosts
    × (after.branches ≡ s.branches)
    × (reclaim_abandoned_reservations after
        ≡ (record { branches = []; lanes = []; hosts = [] }, after))

-- The boot's recovery keeps the claims in their order except for those that it releases and reports
-- by name. The claim of a branch stays exactly if its branch lives; that of a lane exactly if its
-- branch lives and a lane or an app of some branch has the port; that of a host exactly if the branch
-- that its owner names, before a colon if there is one, lives, and a row of some branch has a host
-- that is the label or begins with the label and a dot. A second recovery releases nothing and
-- changes nothing.
pub reclaim_abandoned_reservations_lem : (s : Claims) → Recovered s
unfolding reclaim_abandoned_reservations branch_stays lane_stays host_stays
reclaim_abandoned_reservations_lem s = (
  sift-Sifted (BranchKept s) (branch_stays s) s.branch_reservations (branch_stays_iff s),
  sift-Sifted (LaneKept s) (lane_stays s) s.lane_reservations (lane_stays_iff s),
  sift-Sifted (HostKept s) (host_stays s) s.host_reservations (host_stays_iff s),
  refl,
  ground (
    arith,
    sift-again (branch_stays s) s.branch_reservations,
    sift-again (lane_stays s) s.lane_reservations,
    sift-again (host_stays s) s.host_reservations,
  ),
)
