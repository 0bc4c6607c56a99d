-- ===== src/Router/Table/Build.antt =====
-- The routes of the state document (`buildTable`, `databasesOf`, `bucketsOf` and `refOf` of
-- src/router/table.ts). A map of the state is the list of its entries in order.
use instacloud_oss.Base.{
  ℕ, Bool, false, List, [], ◌∷◌, ◌++◌, map, Option, none, some, get_or, Map, get, list_instance,
  nat_instance, ◌==◌, ◌&&◌, not, if◌then◌else◌, length, drop, take, filter, contains, leb,
}
use instacloud_oss.Router.Table.{
  Text, HostKind, compute, postgres, managed, RouteKind, service, api, garage, garage_vhost, http,
  pg, sni, port, DesiredState, running, Route, Table, empty_table, add_all,
}
use instacloud_oss.Router.Table.Names.{dash, dot, slug, host_for}

pub record App : Type 0 where
  pub host : Option Text
  pub port : ℕ
  pub desired_state : Option DesiredState

pub record Database : Type 0 where
  pub container : Text
  pub host : Option Text

-- `ref`, `dbUrl` and `bucket` may be absent; only the presence of a database's url matters here.
pub record Branch : Type 0 where
  pub id : Text
  pub project_id : Text
  pub name : Text
  pub ref : Option Text
  pub network : Text
  pub apps : Map Text App
  pub databases : Map Text Database
  pub has_db_url : Bool
  pub managed : Map Text (Option Text)
  pub buckets : List Text
  pub bucket : Option Text
  pub lanes : Map Text ℕ

pub record ManagedService : Type 0 where
  pub id : Text
  pub type : Text
  pub name : Text

pub record Project : Type 0 where
  pub id : Text
  pub name : Text
  pub ref_slug : Option Text
  pub managed_services : List ManagedService

pub record CustomDomain : Type 0 where
  pub branch_id : Text
  pub group : Text
  pub hostname : Text

pub record State : Type 0 where
  pub branches : List Branch
  pub projects : Map Text Project
  pub custom_domains : List CustomDomain

pub record Config : Type 0 where
  pub is_server : Bool
  pub domain : Text
  pub port : ℕ
  pub pg_port : ℕ
  pub redis_port : ℕ
  pub mongo_port : ℕ

-- What the table of managed databases (src/manageddb.ts) says of a type.
pub record ManagedTypes : Type 0 where
  pub has_sni : Text → Bool
  pub is_redis : Text → Bool
  pub port_of : Text → ℕ
  -- The container of a ref, a type and a name.
  pub container_name : Text → Text → Text → Text

abbrev pub api_text : Text
api_text = b'a' ∷ b'p' ∷ b'i' ∷ []

abbrev pub console_text : Text
console_text = b'c' ∷ b'o' ∷ b'n' ∷ b's' ∷ b'o' ∷ b'l' ∷ b'e' ∷ []

abbrev garage_text : Text
garage_text = b'g' ∷ b'a' ∷ b'r' ∷ b'a' ∷ b'g' ∷ b'e' ∷ []

abbrev io_text : Text
io_text = b'i' ∷ b'o' ∷ dash ∷ []

abbrev pub s3_suffix : Text → Text
s3_suffix domain = dot ∷ b's' ∷ b'3' ∷ dot ∷ domain

abbrev pg_text : Text
pg_text = b'p' ∷ b'g' ∷ dash ∷ []

abbrev pg_db : Text
pg_db = b'p' ∷ b'g' ∷ dash ∷ b'd' ∷ b'b' ∷ []

-- `id.startsWith('pg-') ? id.slice(3) : id`
abbrev database_name : Text → Text
database_name id = if take 3 id == pg_text then drop 3 id else id

-- `<branch>:<service>`
abbrev pub key_of : Text → Text → Text
key_of branch id = branch ++ b':' ∷ id

unfoldable pub databases_of : Branch → Text → Map Text Database
databases_of b ref = elim b.databases [
  | d ∷ ds ↦ d ∷ ds
  | [] ↦
      if b.has_db_url
      then (pg_db, record { container = io_text ++ ref ++ dash ∷ b'p' ∷ b'g' ∷ []; host = none })
        ∷ []
      else []
]

unfoldable pub buckets_of : Branch → List Text
buckets_of b = elim b.buckets [
  | x ∷ xs ↦ x ∷ xs
  | [] ↦ elim b.bucket [ none ↦ [] | some [] ↦ [] | some (c ∷ cs) ↦ (c ∷ cs) ∷ [] ]
]

module _ (types : ManagedTypes) (to_lower sha256_hex : Text → Text) (cfg : Config) where
  abbrev pub ref_of : Project → Branch → Text
  ref_of p b = get_or b.ref (
      get_or p.ref_slug (slug to_lower sha256_hex p.name) ++ dash ∷ slug to_lower sha256_hex b.name)

  abbrev minted : HostKind → Text → Text → Text
  minted kind name ref = host_for to_lower sha256_hex kind name ref cfg.domain

  -- The daemon itself.
  abbrev pub api_route : Route
  api_route = record {
    key = api_text;
    host = api_text ++ dot ∷ cfg.domain;
    aliases = (console_text ++ dot ∷ cfg.domain) ∷ [];
    kind = api;
    lane = http;
    container = [];
    network = [];
    port = cfg.port;
    listen_port = none;
    tls = false;
    desired_state = running;
  }

  abbrev pub garage_route : RouteKind → Text → Text → Route
  garage_route kind key host = record {
    key = key;
    host = host;
    aliases = [];
    kind = kind;
    lane = http;
    container = io_text ++ garage_text;
    network = [];
    port = 3900;
    listen_port = none;
    tls = false;
    desired_state = running;
  }

  abbrev pub vhost_name : Text
  vhost_name = b'*' ∷ s3_suffix cfg.domain

  -- The object store, in server mode only.
  abbrev pub garage_routes : List Route
  garage_routes =
      garage_route garage garage_text (b's' ∷ b'3' ∷ dot ∷ cfg.domain)
      ∷ garage_route garage_vhost (garage_text ++ dash ∷ b'v' ∷ b'h' ∷ b'o' ∷ b's' ∷ b't' ∷ [])
          vhost_name
      ∷ []

  module _ (s : State) (b : Branch) (ref : Text) where
    abbrev domains_of : Text → List Text
    domains_of group =
        map (λ d. d.hostname)
          (filter (λ d. key_of d.branch_id d.group == key_of b.id group) s.custom_domains)

    abbrev app_route : Text × App → Route
    app_route (g, app) = record {
      key = key_of b.id (b'c' ∷ b'p' ∷ dash ∷ g);
      host = get_or app.host (minted compute g ref);
      aliases = domains_of g;
      kind = service compute;
      lane = http;
      container = io_text ++ ref ++ dash ∷ b'a' ∷ b'p' ∷ b'p' ∷ dash ∷ g;
      network = b.network;
      port = app.port;
      listen_port = none;
      tls = false;
      desired_state = get_or app.desired_state running;
    }

    abbrev database_route : Text × Database → Route
    database_route (id, db) = record {
      key = key_of b.id id;
      host = get_or db.host (minted postgres (database_name id) ref);
      aliases = [];
      kind = service postgres;
      lane = pg;
      container = db.container;
      network = b.network;
      port = 5432;
      listen_port = if cfg.is_server then some cfg.pg_port else get id b.lanes;
      tls = cfg.is_server;
      desired_state = running;
    }

    abbrev managed_route : ManagedService → Option Text → Route
    managed_route m host =
        let by_sni = cfg.is_server && types.has_sni m.type in
        record {
          key = key_of b.id m.id;
          host = get_or host (minted (managed m.type) m.name ref);
          aliases = [];
          kind = service (managed m.type);
          lane = if by_sni then sni else port;
          container = types.container_name ref m.type m.name;
          network = b.network;
          port = types.port_of m.type;
          listen_port =
              if by_sni
              then some (if types.is_redis m.type then cfg.redis_port else cfg.mongo_port)
              else get m.id b.lanes;
          tls = by_sni;
          desired_state = running;
        }

    -- A service without credentials in the branch has no route.
    unfoldable pub managed_routes : List ManagedService → List Route
    managed_routes [] = []
    managed_routes (m ∷ ms) = elim (get m.id b.managed) [
      | none ↦ managed_routes ms
      | some host ↦ managed_route m host ∷ managed_routes ms
    ]

    unfoldable pub branch_routes : Project → List Route
    branch_routes p =
        map app_route b.apps
        ++ map database_route (databases_of b ref)
        ++ managed_routes p.managed_services

  -- A branch of an unknown project has no routes.
  unfoldable pub all_branch_routes : State → List Branch → List Route
  all_branch_routes s [] = []
  all_branch_routes s (b ∷ bs) = elim (get b.project_id s.projects) [
    | none ↦ all_branch_routes s bs
    | some p ↦ branch_routes s b (ref_of p b) p ++ all_branch_routes s bs
  ]

  unfoldable pub routes_of : State → List Route
  routes_of s =
      api_route ∷ (if cfg.is_server then garage_routes else []) ++ all_branch_routes s s.branches

  unfoldable pub build_table : State → Table
  build_table s = add_all cfg.is_server (routes_of s) empty_table

  bucket_hosts : List Branch → Map Text Project → List Text
  bucket_hosts [] projects = []
  bucket_hosts (b ∷ bs) projects = elim (get b.project_id projects) [
    | none ↦ bucket_hosts bs projects
    | some p ↦
        map (λ bucket. bucket ++ s3_suffix cfg.domain) (buckets_of b) ++ bucket_hosts bs projects
  ]

  -- The names that certificates may be made for: those of the table less the wildcard, and in server
  -- mode those of the buckets that exist.
  unfoldable pub hosts_of : State → List Text
  unfolding bucket_hosts
  hosts_of s =
      if cfg.is_server
      then filter (λ h. not (h == vhost_name)) (build_table s).hosts
        ++ bucket_hosts s.branches s.projects
      else (build_table s).hosts

  -- What is left of a text before a suffix.
  unfoldable pub before_suffix : Text → Text → Option Text
  before_suffix suffix [] = none
  before_suffix suffix (c ∷ cs) =
      let rest = before_suffix suffix cs in
      if (c ∷ cs) == suffix then some [] else elim rest [ none ↦ none | some l ↦ some (c ∷ l) ]

  -- A bucket's label: one label that is not the wildcard itself.
  abbrev pub is_bucket_label : Text → Bool
  is_bucket_label label =
      leb 1 (length label) && (not (contains dot label) && not (label == b'*' ∷ []))

  abbrev vhost_match : Option Route → Option Text → Option Route
  vhost_match none label = none
  vhost_match (some r) none = none
  vhost_match (some r) (some label) = if is_bucket_label label then some r else none

  -- `byHost`, on a name that `hostOnly` has cut down.
  unfoldable pub by_host : Table → Text → Option Route
  by_host t h = elim (get h t.by_host) [
    | some exact ↦ some exact
    | none ↦ vhost_match (get vhost_name t.by_host) (before_suffix (s3_suffix cfg.domain) h)
  ]
