-- ===== src/Store/Migrate.antt =====
-- `migrateState` of src/state.ts: the rows that a document from before the registration model gets on
-- every parse. Maps are lists of their entries; names are lists of code units, and ids are native.
pub mod Laws
mod Tests
use instacloud_oss.Base.{
  ℕ, String, Bool, true, false, List, [], ◌∷◌, ◌++◌, Option, none, some, Map, string_instance, ◌==◌,
  ◌&&◌, ◌||◌, not, if◌then◌else◌, any, map, filter, find, head?, is_some, get_or, take,
}
use instacloud_oss.GitDeploy.{units}
use instacloud_oss.Router.Table.Names.{strip_dashes, drop_dashes, collapse}

abbrev pub Text : Type 0
Text = List ℕ

pub record DbService : Type 0 where
  pub id : String
  pub name : String
  pub data_id : String
  pub created_at : ℕ

pub record StorageService : Type 0 where
  pub id : String
  pub name : String
  pub created_at : ℕ
  pub is_public : Bool

pub record Database : Type 0 where
  pub url : String
  pub container : Text
  pub data_id : String

pub record Bucket : Type 0 where
  pub bucket : String
  pub env : Map String String
  pub is_public : Bool

pub record Project : Type 0 where
  pub id : String
  pub name : Text
  pub created_at : ℕ
  pub ref_slug : Option Text
  pub db_services : Option (List DbService)
  pub storage_services : Option (List StorageService)

pub record Branch : Type 0 where
  pub project_id : String
  pub name : Text
  pub is_default : Bool
  pub ref : Option Text
  pub db_url : Option String
  pub bucket : Option String
  pub s3 : Option (Map String String)
  pub storage_public : Option Bool
  pub databases : Option (Map String Database)
  pub buckets : Option (Map String Bucket)

pub record State : Type 0 where
  pub projects : List Project
  pub branches : List Branch

abbrev pub had_db : List Branch → Bool
had_db bs = any (λ b. is_some b.db_url) bs

abbrev pub had_bucket : List Branch → Bool
had_bucket bs = any (λ b. is_some b.bucket) bs

abbrev pub is_of : Project → Branch → Bool
is_of p b = b.project_id == p.id

-- `branches.find((b) => b.isDefault) ?? branches[0]`
abbrev default_branch : List Branch → Option Branch
default_branch bs = elim (find (λ b. b.is_default) bs) [ none ↦ head? bs | some b ↦ some b ]

abbrev default_public : List Branch → Bool
default_public bs = elim (default_branch bs) [
  | none ↦ false
  | some b ↦ get_or b.storage_public false
]

-- A field that is absent is filled, if the old document had the service.
abbrev pub fill {ℓ} : {A : Type ℓ} → Bool → A → Option A → Option A
fill had a (some x) = some x
fill had a none = if had then some a else none

unfoldable pub migrate_project : List Branch → Project → Project
migrate_project bs p = record p {
  db_services =
      fill (had_db bs)
        (record { id = "pg-db"; name = "db"; data_id = "db"; created_at = p.created_at } ∷ [])
        p.db_services;
  storage_services =
      fill (had_bucket bs)
        (record {
          id = "st-store";
          name = "store";
          created_at = p.created_at;
          is_public = default_public bs;
        }
          ∷ [])
        p.storage_services;
}

module _ (to_lower_case : Text → Text) where
  unfoldable pub slug : Text → Text
  slug name = take 20 (strip_dashes (drop_dashes (collapse false (to_lower_case name))))

  -- `b.ref`, or what it was derived from before rows carried it.
  abbrev ref_of : Project → Branch → Text
  ref_of p b = get_or b.ref (get_or p.ref_slug (slug p.name) ++ (b'-' ∷ slug b.name))

  abbrev old_database : Project → Branch → String → Map String Database
  old_database p b url =
      (
        "pg-db",
        record {
          url = url;
          container = units "io-" ++ (ref_of p b ++ units "-pg");
          data_id = "db";
        },
      )
      ∷ []

  abbrev old_bucket : Branch → String → Map String Bucket
  old_bucket b bucket =
      (
        "st-store",
        record { bucket = bucket; env = get_or b.s3 []; is_public = get_or b.storage_public false },
      )
      ∷ []

  unfoldable pub migrate_branch : Project → Branch → Branch
  migrate_branch p b = record b {
    databases = elim b.databases [
      | some d ↦ some d
      | none ↦ elim b.db_url [ none ↦ none | some url ↦ some (old_database p b url) ]
    ];
    buckets = elim b.buckets [
      | some d ↦ some d
      | none ↦ elim b.bucket [ none ↦ none | some name ↦ some (old_bucket b name) ]
    ];
  }

  -- The branches of the project are changed where they stand.
  unfoldable pub migrate_branches : Project → List Branch → List Branch
  migrate_branches p bs = map (λ b. if is_of p b then migrate_branch p b else b) bs

  -- Only a legacy project is migrated.
  abbrev pub is_legacy : List Branch → Bool
  is_legacy own = had_db own || had_bucket own

  unfoldable pub migrate_projects : List Project → List Branch → List Project × List Branch
  migrate_projects [] bs = ([], bs)
  migrate_projects (p ∷ ps) bs =
      let own = filter (is_of p) bs in
      let legacy = is_legacy own in
      let (rest, out) = migrate_projects ps (if legacy then migrate_branches p bs else bs) in
      ((if legacy then migrate_project own p else p) ∷ rest, out)

  unfoldable pub migrate_state : State → State
  migrate_state s =
      let (ps, bs) = migrate_projects s.projects s.branches in
      record { projects = ps; branches = bs }
