-- ===== src/Store/Migrate/Tests.antt =====
-- A project from before the registration model, and a new one.
use instacloud_oss.Base.{true, [], ◌∷◌, none, some, string_instance, ◌≡◌, refl, map}
use instacloud_oss.GitDeploy.{units}
use instacloud_oss.Store.Migrate.{
  Text, Project, Branch, State, migrate_state, migrate_projects, migrate_branches, migrate_branch,
  migrate_project,
}
use instacloud_oss.Store.Migrate.Laws.{migrate_state-twice}

abbrev project : Project
project = record {
  id = "p1";
  name = units "shop";
  created_at = 7;
  ref_slug = none;
  db_services = none;
  storage_services = none;
}

abbrev main_branch : Branch
main_branch = record {
  project_id = "p1";
  name = units "main";
  is_default = true;
  ref = some (units "shop-main");
  db_url = some "postgres://db";
  bucket = none;
  s3 = none;
  storage_public = none;
  databases = none;
  buckets = none;
}

abbrev old_box : State
old_box = record { projects = project ∷ []; branches = main_branch ∷ [] }

abbrev same_text : Text → Text
same_text t = t

container_of_old :
    map (λ b. b.databases) (migrate_state same_text old_box).branches
    ≡ some (
        (
          "pg-db",
          record { url = "postgres://db"; container = units "io-shop-main-pg"; data_id = "db" },
        )
        ∷ [])
      ∷ []
unfolding migrate_state migrate_projects migrate_branches migrate_branch migrate_project
container_of_old = refl

migrate_state-twice_example :
    migrate_state same_text (migrate_state same_text old_box) ≡ migrate_state same_text old_box
migrate_state-twice_example = migrate_state-twice same_text old_box
