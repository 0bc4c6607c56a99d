-- ===== src/Store/Migrate/Laws.antt =====
-- The migration runs on every parse: a second run changes nothing.
use instacloud_oss.Base.{
  ◌≡◌, refl, sym, ◌∙◌, Bool, true, List, [], ◌∷◌, Option, none, some, string_instance, ◌&&◌, ◌||◌,
  not, if◌then◌else◌, all, filter, is_some, arith, Bool-cases, inl, inr,
}
use instacloud_oss.Store.Migrate.{
  Text, Project, Branch, State, had_db, had_bucket, is_of, fill, migrate_project, migrate_branch,
  migrate_branches, is_legacy, migrate_projects, migrate_state,
}

-- A branch has the rows that its legacy fields stand for.
abbrev settled : Branch → Bool
settled b =
    (not (is_some b.db_url) || is_some b.databases) && (not (is_some b.bucket) || is_some b.buckets)

abbrev pub settled_of : Project → List Branch → Bool
settled_of p bs = all (λ b. not (is_of p b) || settled b) bs

fill-done :
    {A : Type 0} (had : Bool) (a : A) (o : Option A)
    → (had ≡ true → is_some o ≡ true)
    → fill had a o ≡ o
fill-done had a (some x) h = refl
fill-done had a none h = ground (arith, h)

fill-some :
    {A : Type 0} (had : Bool) (a : A) (o : Option A) → had ≡ true → is_some (fill had a o) ≡ true
fill-some had a (some x) h = refl
fill-some had a none h = ground (arith, h)

module _ (lower : Text → Text) where
  had_db-migrate_branches :
      (q p : Project) (bs : List Branch)
      → had_db (filter (is_of q) (migrate_branches lower p bs)) ≡ had_db (filter (is_of q) bs)
  unfolding migrate_branches migrate_branch
  had_db-migrate_branches q p [] = refl
  had_db-migrate_branches q p (b ∷ bs) = elim (Bool-cases (is_of p b)) [
    | inl e ↦ ground (arith, e, had_db-migrate_branches q p bs)
    | inr e ↦ ground (arith, e, had_db-migrate_branches q p bs)
  ]

  had_bucket-migrate_branches :
      (q p : Project) (bs : List Branch)
      → had_bucket (filter (is_of q) (migrate_branches lower p bs))
        ≡ had_bucket (filter (is_of q) bs)
  unfolding migrate_branches migrate_branch
  had_bucket-migrate_branches q p [] = refl
  had_bucket-migrate_branches q p (b ∷ bs) = elim (Bool-cases (is_of p b)) [
    | inl e ↦ ground (arith, e, had_bucket-migrate_branches q p bs)
    | inr e ↦ ground (arith, e, had_bucket-migrate_branches q p bs)
  ]

  settled-migrate_branch : (p : Project) (b : Branch) → settled (migrate_branch lower p b) ≡ true
  unfolding migrate_branch
  settled-migrate_branch p b = ground arith

  migrate_branch-settled :
      (p : Project) (b : Branch) → settled b ≡ true → migrate_branch lower p b ≡ b
  unfolding migrate_branch
  migrate_branch-settled p b h = ground (arith, h)

  settled_of-migrate_branches :
      (q p : Project) (bs : List Branch)
      → settled_of q bs ≡ true
      → settled_of q (migrate_branches lower p bs) ≡ true
  unfolding migrate_branches
  settled_of-migrate_branches q p [] h = refl
  settled_of-migrate_branches q p (b ∷ bs) h = elim (Bool-cases (is_of p b)) [
    | inl e ↦ ground (arith, e, h, settled-migrate_branch p b, settled_of-migrate_branches q p bs)
    | inr e ↦ ground (arith, e, h, settled_of-migrate_branches q p bs)
  ]

  settled_of-own :
      (p : Project) (bs : List Branch) → settled_of p (migrate_branches lower p bs) ≡ true
  unfolding migrate_branches
  settled_of-own p [] = refl
  settled_of-own p (b ∷ bs) = elim (Bool-cases (is_of p b)) [
    | inl e ↦ ground (arith, e, settled-migrate_branch p b, settled_of-own p bs)
    | inr e ↦ ground (arith, e, settled_of-own p bs)
  ]

  migrate_branches-settled :
      (p : Project) (bs : List Branch) → settled_of p bs ≡ true → migrate_branches lower p bs ≡ bs
  unfolding migrate_branches
  migrate_branches-settled p [] h = refl
  migrate_branches-settled p (b ∷ bs) h = elim (Bool-cases (is_of p b)) [
    | inl e ↦ ground (arith, e, h, migrate_branch-settled p b, migrate_branches-settled p bs)
    | inr e ↦ ground (arith, e, h, migrate_branches-settled p bs)
  ]

  -- What the step of one project leaves of the branches.
  abbrev step : Project → List Branch → List Branch
  step p bs = if is_legacy lower (filter (is_of p) bs) then migrate_branches lower p bs else bs

  had_db-step :
      (q p : Project) (bs : List Branch)
      → had_db (filter (is_of q) (step p bs)) ≡ had_db (filter (is_of q) bs)
  had_db-step q p bs = ground (arith, had_db-migrate_branches q p bs)

  had_bucket-step :
      (q p : Project) (bs : List Branch)
      → had_bucket (filter (is_of q) (step p bs)) ≡ had_bucket (filter (is_of q) bs)
  had_bucket-step q p bs = ground (arith, had_bucket-migrate_branches q p bs)

  settled_of-step :
      (q p : Project) (bs : List Branch) → settled_of q bs ≡ true → settled_of q (step p bs) ≡ true
  settled_of-step q p bs h = ground (arith, h, settled_of-migrate_branches q p bs)

  -- The legacy fields and the rows that are there survive the other projects.
  had_db-migrate_projects :
      (q : Project) (ps : List Project) (bs : List Branch)
      → had_db (filter (is_of q) (migrate_projects lower ps bs).1) ≡ had_db (filter (is_of q) bs)
  unfolding migrate_projects
  had_db-migrate_projects q [] bs = refl
  had_db-migrate_projects q (p ∷ ps) bs =
      had_db-migrate_projects q ps (step p bs) ∙ had_db-step q p bs

  had_bucket-migrate_projects :
      (q : Project) (ps : List Project) (bs : List Branch)
      → had_bucket (filter (is_of q) (migrate_projects lower ps bs).1)
        ≡ had_bucket (filter (is_of q) bs)
  unfolding migrate_projects
  had_bucket-migrate_projects q [] bs = refl
  had_bucket-migrate_projects q (p ∷ ps) bs =
      had_bucket-migrate_projects q ps (step p bs) ∙ had_bucket-step q p bs

  settled_of-migrate_projects :
      (q : Project) (ps : List Project) (bs : List Branch)
      → settled_of q bs ≡ true
      → settled_of q (migrate_projects lower ps bs).1 ≡ true
  unfolding migrate_projects
  settled_of-migrate_projects q [] bs h = h
  settled_of-migrate_projects q (p ∷ ps) bs h =
      settled_of-migrate_projects q ps (step p bs) (settled_of-step q p bs h)

  -- A legacy project has the rows that its branches stand for, and so have they.
  abbrev IsDone : Project → List Branch → Type 0
  IsDone p bs =
      let own = filter (is_of p) bs in
      is_legacy lower own ≡ true
      → (settled_of p bs ≡ true)
        × (had_db own ≡ true → is_some p.db_services ≡ true)
        × (had_bucket own ≡ true → is_some p.storage_services ≡ true)

  abbrev Done : List Project → List Branch → Type 0
  Done [] bs = Unit
  Done (p ∷ ps) bs = IsDone p bs × Done ps bs

  migrate_project-done :
      (p : Project) (own : List Branch)
      → (had_db own ≡ true → is_some p.db_services ≡ true)
      → (had_bucket own ≡ true → is_some p.storage_services ≡ true)
      → migrate_project own p ≡ p
  unfolding migrate_project
  migrate_project-done p own h k =
      rw
        (
          fill-done (had_db own) _ p.db_services h,
          fill-done (had_bucket own) _ p.storage_services k,
        )
        refl

  migrate_projects-Done :
      (ps : List Project) (bs : List Branch) → Done ps bs → migrate_projects lower ps bs ≡ (ps, bs)
  unfolding migrate_projects
  migrate_projects-Done [] bs d = refl
  migrate_projects-Done (p ∷ ps) bs d = elim (Bool-cases (is_legacy lower (filter (is_of p) bs))) [
    | inr e ↦ ground (arith, e, migrate_projects-Done ps bs d.1)
    | inl e ↦
        let (s, h, k) = d.0 e in
        ground (
          arith,
          e,
          migrate_branches-settled p bs s,
          migrate_project-done p (filter (is_of p) bs) h k,
          migrate_projects-Done ps bs d.1,
        )
  ]

  -- What the step of a project makes is done in any later branches with the same legacy fields.
  migrated-IsDone :
      (p : Project) (bs out : List Branch)
      → had_db (filter (is_of p) out) ≡ had_db (filter (is_of p) bs)
      → had_bucket (filter (is_of p) out) ≡ had_bucket (filter (is_of p) bs)
      → (is_legacy lower (filter (is_of p) bs) ≡ true → settled_of p out ≡ true)
      → let own = filter (is_of p) bs in
        IsDone (if is_legacy lower own then migrate_project own p else p) out
  unfolding migrate_project
  migrated-IsDone p bs out same_db same_bucket done =
      let own = filter (is_of p) bs in
      elim (Bool-cases (is_legacy lower own)) [
        | inr e ↦ rw e (λ l. absurd (ground (arith, e, l, same_db, same_bucket)))
        | inl e ↦ rw e (λ l. (
          done e,
          λ h. fill-some (had_db own) _ p.db_services (sym same_db ∙ h),
          λ h. fill-some (had_bucket own) _ p.storage_services (sym same_bucket ∙ h),
        ))
      ]

  settled_of-step_own :
      (p : Project) (bs : List Branch)
      → is_legacy lower (filter (is_of p) bs) ≡ true
      → settled_of p (step p bs) ≡ true
  settled_of-step_own p bs e = rw e (settled_of-own p bs)

  migrated-Done :
      (ps : List Project) (bs : List Branch)
      → Done (migrate_projects lower ps bs).0 (migrate_projects lower ps bs).1
  unfolding migrate_projects
  migrated-Done [] bs = tt
  migrated-Done (p ∷ ps) bs = (
    migrated-IsDone p bs (migrate_projects lower ps (step p bs)).1
        (had_db-migrate_projects p ps (step p bs) ∙ had_db-step p p bs)
        (had_bucket-migrate_projects p ps (step p bs) ∙ had_bucket-step p p bs)
        (λ e. settled_of-migrate_projects p ps (step p bs) (settled_of-step_own p bs e)),
    migrated-Done ps (step p bs),
  )

  -- A document that was migrated is as it is after any further migration.
  pub migrate_state-twice :
      (s : State) → migrate_state lower (migrate_state lower s) ≡ migrate_state lower s
  unfolding migrate_state
  migrate_state-twice s =
      let (ps, bs) = migrate_projects lower s.projects s.branches in
      rw (migrate_projects-Done ps bs (migrated-Done s.projects s.branches)) refl
