-- ===== src/Store/Reservations/Tests.antt =====
-- A daemon that was killed in the middle of two creates.
use instacloud_oss.Base.{[], ◌∷◌, none, some, ◌≡◌, refl, get, contains}
use instacloud_oss.Identity.Keys.{after_prefix}
use instacloud_oss.Store.Reservations.{
  Branch, Claims, reclaim_abandoned_reservations, sift, branch_stays, lane_stays, host_stays,
  ports_in_use, hosts_in_use,
}
use instacloud_oss.Store.Reservations.Laws.{Recovered, reclaim_abandoned_reservations_lem}

-- The branch has a lane on port 5433 and an app on the host `web.box.io`.
abbrev live : Branch
live = record {
  lanes = "5433" ∷ [];
  apps = record { host_port = none; host = some "web.box.io" } ∷ [];
  database_hosts = none ∷ [];
  managed_hosts = [];
}

abbrev left_behind : Claims
left_behind = record {
  branches = ("b1", live) ∷ [];
  branch_reservations = ("shop-dev", "b2") ∷ ("shop-main", "b1") ∷ [];
  lane_reservations = ("5433", "b1") ∷ ("5434", "b1") ∷ [];
  host_reservations = ("we", "b1") ∷ ("web", "b1:s1") ∷ ("api", "b2:s1") ∷ [];
}

recovers : reclaim_abandoned_reservations left_behind ≡ (
  record { branches = "shop-dev" ∷ []; lanes = "5434" ∷ []; hosts = "we" ∷ "api" ∷ [] },
  record left_behind {
    branch_reservations = ("shop-main", "b1") ∷ [];
    lane_reservations = ("5433", "b1") ∷ [];
    host_reservations = ("web", "b1:s1") ∷ [];
  },
)
unfolding reclaim_abandoned_reservations sift branch_stays lane_stays host_stays ports_in_use
    hosts_in_use get contains after_prefix
recovers = refl

reclaim_abandoned_reservations_lem_example : Recovered left_behind
reclaim_abandoned_reservations_lem_example = reclaim_abandoned_reservations_lem left_behind
