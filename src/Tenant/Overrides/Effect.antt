-- ===== src/Tenant/Overrides/Effect.antt =====
-- What a change of a project role does to the roles that the resolver finds.
use himitsu.Prelude.{
  ℕ, ◌≡◌, refl, ap, ◌∙◌, inl, inr, Option-cases, ◌++◌, ◌≢◌, ◌&&◌, true, false, Option, none, some,
  List, [], ◌∷◌, ◌==◌, if◌then◌else◌, arith,
}
use himitsu.Authz.{Role, ProjectOverrideRole, org_members_manage}
use himitsu.Authz.Decision.{allows}
use himitsu.Errors.{ok}
use himitsu.Audit.{AuditEvent}
use himitsu.Database.{Database, OverrideRow}
use himitsu.Tenant.{active_role, override_role, require, logged}
use himitsu.Tenant.Recording.{recorded, require_granted}
use himitsu.Tenant.Overrides.{
  upsert, delete_override, override_event, set_override, remove_override,
}

override_role-upsert :
    (row : OverrideRow) (rows : List OverrideRow) (p u : ℕ)
    → override_role p u (upsert row rows)
      ≡ (if row.project_id == p && row.user_id == u then some row.role else override_role p u rows)
unfolding upsert override_role
override_role-upsert row [] p u = ground arith
override_role-upsert row (o ∷ rest) p u = ground (arith, override_role-upsert row rest p u)

module _ (actor project target : ℕ) where
  abbrev changed : ProjectOverrideRole → Database → Database
  changed role db = record db {
    overrides =
        upsert
          (record {
            project_id = project;
            user_id = target;
            role = role;
            created_by_user_id = actor;
          })
          db.overrides;
  }

  set_override-ok :
      (role : ProjectOverrideRole) (db db' : Database)
      → set_override actor project target role db ≡ (ok tt, db')
      → (require actor none false org_members_manage db ≡ ok tt)
        × (active_role target db.memberships ≢ none)
        × (db'
            ≡ logged
                (override_event db.org_id actor project target
                  (override_role project target db.overrides)
                  (some role))
                (changed role db))
  unfolding set_override
  set_override-ok role db db' h = ground (
    arith,
    recorded
        (override_event db.org_id actor project target (override_role project target db.overrides)
          (some role))
        (changed role db),
  )

  -- A change of a project role that returns was made by an active member who may manage members, for
  -- an active member. The resolver then finds the new role for that member in that project and what
  -- it found before everywhere else, and exactly one event was appended.
  pub set_override_effect :
      (role : ProjectOverrideRole) (db db' : Database)
      → set_override actor project target role db ≡ (ok tt, db')
      → ((actor_role : Role) × (active_role actor db.memberships ≡ some actor_role)
          × (allows actor_role none false org_members_manage ≡ true))
        × (active_role target db.memberships ≢ none)
        × ((p u : ℕ)
            → override_role p u db'.overrides
              ≡ (if project == p && target == u then some role else override_role p u db.overrides))
        × (db'.memberships ≡ db.memberships)
        × (db'.audit_events
            ≡ db.audit_events
              ++ override_event db.org_id actor project target
                  (override_role project target db.overrides)
                  (some role)
                ∷ [])
  set_override_effect role db db' h =
      let (permitted, present, same) = set_override-ok role db db' h in
      (
        require_granted actor none false org_members_manage db permitted,
        present,
        λ p u. rw same (override_role-upsert _ db.overrides p u),
        rw same,
        rw same,
      )

override_role-delete_override :
    (project target : ℕ) (rows : List OverrideRow) (p u : ℕ)
    → override_role p u (delete_override project target rows)
      ≡ (if project == p && target == u then none else override_role p u rows)
unfolding delete_override override_role
override_role-delete_override project target [] p u = ground arith
override_role-delete_override project target (o ∷ rest) p u =
    ground (arith, override_role-delete_override project target rest p u)

delete_override-upsert :
    (row : OverrideRow) (rows : List OverrideRow)
    → override_role row.project_id row.user_id rows ≡ none
    → delete_override row.project_id row.user_id (upsert row rows) ≡ rows
unfolding delete_override upsert override_role
delete_override-upsert row [] h = ground arith
delete_override-upsert row (o ∷ rest) h = ground (arith, delete_override-upsert row rest)

module _ (actor project target : ℕ) where
  abbrev removed : Database → Database
  removed db = record db { overrides = delete_override project target db.overrides }

  abbrev after_removal : Database → Option ProjectOverrideRole → Database
  after_removal db none = removed db
  after_removal db (some role) =
      logged (override_event db.org_id actor project target (some role) none) (removed db)

  remove_override-ok :
      (db db' : Database)
      → remove_override actor project target db ≡ (ok tt, db')
      → (require actor none false org_members_manage db ≡ ok tt)
        × (db' ≡ after_removal db (override_role project target db.overrides))
  unfolding remove_override
  remove_override-ok db db' h = elim (Option-cases (override_role project target db.overrides)) [
    | inl missing ↦ ground arith
    | inr (role, found) ↦ ground (
      arith,
      recorded (override_event db.org_id actor project target (some role) none) (removed db),
    )
  ]

  after_removal-overrides :
      (db : Database) (o : Option ProjectOverrideRole)
      → (after_removal db o).overrides ≡ delete_override project target db.overrides
  after_removal-overrides db none = refl
  after_removal-overrides db (some role) = refl

  -- The log behind a removal: an event where there was a role, else nothing.
  abbrev pub removal_log : Database → Option ProjectOverrideRole → List AuditEvent
  removal_log db none = db.audit_events
  removal_log db (some role) =
      db.audit_events ++ override_event db.org_id actor project target (some role) none ∷ []

  after_removal-audit_events :
      (db : Database) (o : Option ProjectOverrideRole)
      → (after_removal db o).audit_events ≡ removal_log db o
  after_removal-audit_events db none = refl
  after_removal-audit_events db (some role) = refl

  after_removal-memberships :
      (db : Database) (o : Option ProjectOverrideRole)
      → (after_removal db o).memberships ≡ db.memberships
  after_removal-memberships db none = refl
  after_removal-memberships db (some role) = refl

  -- A removal of a project role that returns, whoever set the role, was made by an active member who
  -- may manage members. It leaves the resolver with no role for that member in that project and what
  -- it found before everywhere else, keeps the memberships, and appends one event with the role that
  -- was removed, or none where there was no role. Right behind a change, by anyone, that first gave
  -- the member a role there, it leaves the table of project roles that stood before the change.
  pub remove_override_effect :
      (db db' : Database)
      → remove_override actor project target db ≡ (ok tt, db')
      → ((actor_role : Role) × (active_role actor db.memberships ≡ some actor_role)
          × (allows actor_role none false org_members_manage ≡ true))
        × ((p u : ℕ)
            → override_role p u db'.overrides
              ≡ (if project == p && target == u then none else override_role p u db.overrides))
        × (db'.memberships ≡ db.memberships)
        × (db'.audit_events ≡ removal_log db (override_role project target db.overrides))
        × ((setter : ℕ) (role : ProjectOverrideRole) (before : Database)
            → set_override setter project target role before ≡ (ok tt, db)
            → override_role project target before.overrides ≡ none
            → db'.overrides ≡ before.overrides)
  remove_override_effect db db' k =
      let (permitted, same) = remove_override-ok db db' k in
      let kept : db'.overrides ≡ delete_override project target db.overrides =
        ap (λ (d : Database). d.overrides) same ∙ after_removal-overrides db _ in
      (
        require_granted actor none false org_members_manage db permitted,
        λ p u. rw kept (override_role-delete_override project target db.overrides p u),
        ap (λ (d : Database). d.memberships) same ∙ after_removal-memberships db _,
        ap (λ (d : Database). d.audit_events) same ∙ after_removal-audit_events db _,
        λ setter role before h fresh.
            let (_, _, set) = set_override-ok setter project target role before db h in
            kept
            ∙ rw set (
                delete_override-upsert
                  (record {
                    project_id = project;
                    user_id = target;
                    role = role;
                    created_by_user_id = setter;
                  })
                  before.overrides fresh),
      )
