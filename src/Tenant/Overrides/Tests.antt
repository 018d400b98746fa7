-- ===== src/Tenant/Overrides/Tests.antt =====
-- Runs of the project-role service, and the theorems at those runs.
use himitsu.Prelude.{
  ℕ, ◌≡◌, ◌≢◌, refl, ◌&&◌, true, false, none, some, [], ◌∷◌, ◌++◌, ◌==◌, if◌then◌else◌,
}
use himitsu.Authz.{ProjectOverrideRole, Role, org_members_manage}
use himitsu.Authz.Decision.{allows}
use himitsu.Errors.{ok}
use himitsu.Database.{Database}
use himitsu.Evaluation.{evaluation}
use himitsu.Evaluation.Office.{office}
use himitsu.Tenant.{override_role, active_role}
use himitsu.Tenant.Overrides.{
  set_override, remove_override, upsert, delete_override, override_event,
}
use himitsu.Tenant.Overrides.Effect.{removal_log, set_override_effect, remove_override_effect}

narrowed : (db : Database) × (set_override 5 7 6 ProjectOverrideRole.read_only office ≡ (ok tt, db))
unfolding evaluation set_override upsert override_event
narrowed = (_, refl)

widened : (db : Database) × (remove_override 5 7 6 narrowed.0 ≡ (ok tt, db))
unfolding evaluation set_override remove_override upsert delete_override override_event narrowed
widened = (_, refl)

set_override_effect_example :
    ((actor_role : Role) × (active_role 5 office.memberships ≡ some actor_role)
      × (allows actor_role none false org_members_manage ≡ true))
    × (active_role 6 office.memberships ≢ none)
    × ((p u : ℕ)
        → override_role p u narrowed.0.overrides ≡ (
            if 7 == p && 6 == u
            then some ProjectOverrideRole.read_only
            else override_role p u office.overrides))
    × (narrowed.0.memberships ≡ office.memberships)
    × (narrowed.0.audit_events
        ≡ office.audit_events
          ++ override_event 1 5 7 6
              (override_role 7 6 office.overrides)
              (some ProjectOverrideRole.read_only)
            ∷ [])
set_override_effect_example =
    set_override_effect 5 7 6 ProjectOverrideRole.read_only office narrowed.0 narrowed.1

remove_override_effect_example :
    ((actor_role : Role) × (active_role 5 narrowed.0.memberships ≡ some actor_role)
      × (allows actor_role none false org_members_manage ≡ true))
    × ((p u : ℕ)
        → override_role p u widened.0.overrides
          ≡ (if 7 == p && 6 == u then none else override_role p u narrowed.0.overrides))
    × (widened.0.memberships ≡ narrowed.0.memberships)
    × (widened.0.audit_events
        ≡ removal_log 5 7 6 narrowed.0 (override_role 7 6 narrowed.0.overrides))
    × ((setter : ℕ) (role : ProjectOverrideRole) (before : Database)
        → set_override setter 7 6 role before ≡ (ok tt, narrowed.0)
        → override_role 7 6 before.overrides ≡ none
        → widened.0.overrides ≡ before.overrides)
remove_override_effect_example = remove_override_effect 5 7 6 narrowed.0 widened.0 widened.1
