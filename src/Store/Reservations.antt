-- ===== src/Store/Reservations.antt =====
-- The reservations that a killed daemon leaves behind (`reclaimAbandonedReservations` of
-- src/state.ts), over the parts of the state document that it reads. Texts are native strings, which
-- are taken apart by their code units.
pub mod Uses
pub mod Kept
pub mod Laws
mod Tests
use instacloud_oss.Base.{
  ℕ, String, Bool, List, [], ◌∷◌, ◌++◌, Option, none, some, Map, has, string_instance, nat_instance,
  list_instance, ◌==◌, ◌&&◌, ◌||◌, if◌then◌else◌, nat_eq, any, contains, flat_map,
}
use instacloud_oss.GitDeploy.{units}
use instacloud_oss.Identity.Guard.{starts_with}

pub record AppRow : Type 0 where
  pub host_port : Option String
  pub host : Option String

-- The hosts of the databases and of the managed services.
pub record Branch : Type 0 where
  pub lanes : List String
  pub apps : List AppRow
  pub database_hosts : List (Option String)
  pub managed_hosts : List (Option String)

-- The reservation maps, and the branches by their ids, each in the order in which the language lists
-- its entries. A port is its decimal digits.
pub record Claims : Type 0 where
  pub branches : Map String Branch
  pub branch_reservations : Map String String
  pub lane_reservations : Map String String
  pub host_reservations : Map String String

pub record Released : Type 0 where
  pub branches : List String
  pub lanes : List String
  pub hosts : List String

abbrev pub defined : Option String → List String
defined none = []
defined (some x) = x ∷ []

-- `if (x.host) hostsInUse.add(x.host)`: an empty host is none.
abbrev pub host_of : Option String → List String
host_of none = []
host_of (some h) = if h == "" then [] else h ∷ []

-- What one branch adds to `portsInUse` and to `hostsInUse`.
abbrev pub branch_ports : Branch → List String
branch_ports b = b.lanes ++ flat_map (λ (a : AppRow). defined a.host_port) b.apps

abbrev pub branch_hosts : Branch → List String
branch_hosts b =
    flat_map (λ (a : AppRow). host_of a.host) b.apps
    ++ (flat_map host_of b.database_hosts ++ flat_map host_of b.managed_hosts)

unfoldable pub ports_in_use : Map String Branch → List String
ports_in_use branches = flat_map (λ (e : String × Branch). branch_ports e.1) branches

unfoldable pub hosts_in_use : Map String Branch → List String
hosts_in_use branches = flat_map (λ (e : String × Branch). branch_hosts e.1) branches

-- One of the three loops: the claims that stay, and the names of those that go.
unfoldable pub sift : (String → String → Bool) → Map String String → Map String String × List String
sift stays [] = ([], [])
sift stays ((name, owner) ∷ rest) =
    let (kept, gone) = sift stays rest in
    if stays name owner then ((name, owner) ∷ kept, gone) else (kept, name ∷ gone)

unfoldable pub branch_stays : Claims → String → String → Bool
branch_stays s ref owner = has owner s.branches

unfoldable pub lane_stays : Claims → String → String → Bool
lane_stays s port owner = has owner s.branches && contains port (ports_in_use s.branches)

-- `owner.split(':')[0]`
abbrev pub first_part : List ℕ → List ℕ
first_part [] = []
first_part (c ∷ cs) = if nat_eq c b':' then [] else c ∷ first_part cs

-- `h === label || h.startsWith(`${label}.`)`
abbrev pub is_host_of : (host label : String) → Bool
is_host_of h label = h == label || starts_with (units label ++ b'.' ∷ []) (units h)

unfoldable pub host_stays : Claims → String → String → Bool
host_stays s label owner =
    any (λ (e : String × Branch). units e.0 == first_part (units owner)) s.branches
    && any (λ h. is_host_of h label) (hosts_in_use s.branches)

unfoldable pub reclaim_abandoned_reservations : Claims → Released × Claims
reclaim_abandoned_reservations s =
    let (branches, no_branch) = sift (branch_stays s) s.branch_reservations in
    let (lanes, no_lane) = sift (lane_stays s) s.lane_reservations in
    let (hosts, no_host) = sift (host_stays s) s.host_reservations in
    (
      record { branches = no_branch; lanes = no_lane; hosts = no_host },
      record s {
        branch_reservations = branches;
        lane_reservations = lanes;
        host_reservations = hosts;
      },
    )
