-- ===== src/Router/Table.antt =====
-- The route table (src/router/table.ts). A text is the list of its code units.
pub mod Names
pub mod Build
pub mod Lookup
pub mod Laws
use instacloud_oss.Base.{
  suc, ℕ, String, Bool, true, false, List, [], ◌∷◌, ◌++◌, Option, none, some, Map, get, put,
  list_instance, nat_instance, ◌==◌, ◌&&◌, ◌||◌, not, if◌then◌else◌, is_some, contains,
}

abbrev pub Text : Type 0
Text = List ℕ

-- A managed database has the text of its type.
pub data HostKind : Type 0 where
  compute postgres : HostKind
  managed : Text → HostKind

pub data RouteKind : Type 0 where
  service : HostKind → RouteKind
  api garage garage_vhost : RouteKind

pub data Lane : Type 0 where
  http pg sni port : Lane

pub data DesiredState : Type 0 where
  running stopped suspended : DesiredState

-- The ids of the project, the branch and the service, which no look-up reads, are left out; `key` has
-- the latter two.
pub record Route : Type 0 where
  pub key : Text
  pub host : Text
  pub aliases : List Text
  pub kind : RouteKind
  pub lane : Lane
  pub container : Text
  pub network : Text
  pub port : ℕ
  pub listen_port : Option ℕ
  pub tls : Bool
  pub desired_state : DesiredState

-- The maps that `buildTable` fills; `duplicates` counts its warnings.
pub record Table : Type 0 where
  pub by_host : Map Text Route
  pub by_port : Map ℕ Route
  pub hosts : List Text
  pub routes : List Route
  pub duplicates : ℕ

abbrev pub empty_table : Table
empty_table = record { by_host = []; by_port = []; hosts = []; routes = []; duplicates = 0 }

abbrev pub warn : Table → Table
warn t = record t { duplicates = suc t.duplicates }

abbrev pub is_port_lane : Bool → Lane → Bool
is_port_lane is_server port = true
is_port_lane is_server pg = not is_server
is_port_lane is_server _ = false

-- One name of a route; the first route of a name wins.
unfoldable pub add_name : Route → Text → Table → Table
add_name r h t = if is_some (get h t.by_host) then warn t else record t {
  by_host = put h r t.by_host;
  hosts = if contains h t.hosts then t.hosts else t.hosts ++ h ∷ [];
}

unfoldable pub add_names : Route → List Text → Table → Table
add_names r [] t = t
add_names r (h ∷ hs) t = add_names r hs (add_name r h t)

abbrev pub bind_port : ℕ → Route → Table → Table
bind_port p r t =
    if is_some (get p t.by_port) then warn t else record t { by_port = put p r t.by_port }

add_port : Bool → Route → Table → Table
add_port is_server r t = elim r.listen_port [
  | none ↦ t
  | some p ↦ if is_port_lane is_server r.lane then bind_port p r t else t
]

unfoldable pub add : Bool → Route → Table → Table
unfolding add_port
add is_server r t =
    add_port is_server r
      (add_names r (r.host ∷ r.aliases) (record t { routes = t.routes ++ r ∷ [] }))

unfoldable pub add_all : Bool → List Route → Table → Table
add_all is_server [] t = t
add_all is_server (r ∷ rs) t = add_all is_server rs (add is_server r t)
