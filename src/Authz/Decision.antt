-- ===== src/Authz/Decision.antt =====
-- What the decision of packages/authz/src/index.ts guarantees.
use himitsu.Prelude.{
  ◌≤◌, ◌≡◌, refl, ◌↔◌, Bool, true, false, Option, none, some, arith, if◌then◌else◌, ◌&&◌,
}
use himitsu.Authz.{
  Role, owner, admin, member, read_only, ProjectOverrideRole, Permission, org_settings_read,
  permission_matrix, role_rank, AuthorizationContext, effective_role, includes, authorize,
  require_permission, protected_write_permissions, below_admin, project_scoped_permissions,
}

abbrev pub allows : Role → Option ProjectOverrideRole → Bool → Permission → Bool
allows org project protected_environment p =
    (authorize
      (record {
        org_role = org;
        project_role = project;
        protected_environment = protected_environment;
      })
      p).allowed

-- The matrix, role by role: a higher rank holds all that a lower one holds.
matrix_mono :
    (low high : Role) (p : Permission)
    → role_rank low ≤ role_rank high
    → includes (permission_matrix low) p ≡ true
    → includes (permission_matrix high) p ≡ true
unfolding permission_matrix role_rank includes
matrix_mono owner owner _ h e = e
matrix_mono owner admin _ h e = absurd (omega arith)
matrix_mono owner member _ h e = absurd (omega arith)
matrix_mono owner read_only _ h e = absurd (omega arith)
matrix_mono admin member _ h e = absurd (omega arith)
matrix_mono admin read_only _ h e = absurd (omega arith)
matrix_mono member read_only _ h e = absurd (omega arith)
matrix_mono _ owner org_settings_read h e = refl
matrix_mono _ _ org_settings_read h e = cc
matrix_mono _ _ _ h e = cc

effective_rank-le :
    (org : Role) (project : Option ProjectOverrideRole)
    → role_rank (effective_role org project) ≤ role_rank org
unfolding effective_role
effective_rank-le org none = omega arith
effective_rank-le org (some project) = ground arith

effective_role_none : (org : Role) → effective_role org none ≡ org
unfolding effective_role
effective_role_none org = refl

effective_rank_mono :
    (low high : Role) (project : Option ProjectOverrideRole)
    → role_rank low ≤ role_rank high
    → role_rank (effective_role low project) ≤ role_rank (effective_role high project)
unfolding effective_role
effective_rank_mono low high none h = h
effective_rank_mono low high (some project) h = ground arith

below_admin_mono :
    (low high : Role)
    → role_rank low ≤ role_rank high
    → below_admin low ≡ false
    → below_admin high ≡ false
unfolding role_rank below_admin
below_admin_mono owner owner h e = refl
below_admin_mono _ _ h e = ground arith

-- The role that the decision goes by.
abbrev deciding : Role → Option ProjectOverrideRole → Permission → Role
deciding org project p =
    if includes project_scoped_permissions p then effective_role org project else org

-- What `allows` asks of the deciding role.
allows_iff :
    (org : Role) (project : Option ProjectOverrideRole) (guarded : Bool) (p : Permission)
    → (allows org project guarded p ≡ true) ↔ (
        (includes (permission_matrix (deciding org project p)) p ≡ true)
        × ((guarded && includes protected_write_permissions p) ≡ true
            → below_admin (deciding org project p) ≡ false))
unfolding authorize
allows_iff org project guarded p = ground arith

allows_of_rank :
    (org org' : Role) (project project' : Option ProjectOverrideRole) (guarded : Bool)
    (p : Permission)
    → role_rank (deciding org project p) ≤ role_rank (deciding org' project' p)
    → allows org project guarded p ≡ true
    → allows org' project' guarded p ≡ true
allows_of_rank org org' project project' guarded p le h =
    let (held, cleared) = (allows_iff org project guarded p).0 h in
    (allows_iff org' project' guarded p).1
      (matrix_mono _ _ p le held, λ w. below_admin_mono _ _ le (cleared w))

-- A project override only ever narrows: what is allowed with an override is allowed without it.
pub allows_without_override :
    (org : Role) (project : Option ProjectOverrideRole) (guarded : Bool) (p : Permission)
    → allows org project guarded p ≡ true
    → allows org none guarded p ≡ true
allows_without_override org project guarded p =
    allows_of_rank org org project none guarded p
      (ground (arith, effective_rank-le org project, effective_role_none org))

-- A higher organization role is allowed all that a lower one is, whatever the override.
pub allows_mono :
    (low high : Role) (project : Option ProjectOverrideRole) (guarded : Bool) (p : Permission)
    → role_rank low ≤ role_rank high
    → allows low project guarded p ≡ true
    → allows high project guarded p ≡ true
allows_mono low high project guarded p le =
    allows_of_rank low high project project guarded p
      (ground (arith, effective_rank_mono low high project))

protected_write_scoped :
    (p : Permission)
    → includes protected_write_permissions p ≡ true
    → includes project_scoped_permissions p ≡ true
unfolding includes protected_write_permissions project_scoped_permissions
protected_write_scoped org_settings_read h = cc
protected_write_scoped _ h = cc

admin_of_not_below : (r : Role) → below_admin r ≡ false → 2 ≤ role_rank r
unfolding below_admin role_rank
admin_of_not_below r h = ground arith

-- Writing in a protected environment takes an effective role of admin or above, both with and
-- without an override.
pub protected_write-role_rank :
    (org : Role) (project : Option ProjectOverrideRole) (p : Permission)
    → includes protected_write_permissions p ≡ true
    → allows org project true p ≡ true
    → (2 ≤ role_rank (effective_role org project)) × (2 ≤ role_rank org)
protected_write-role_rank org project p w h =
    let (held, cleared) = (allows_iff org project true p).0 h in
    let scoped = protected_write_scoped p w in
    let high = admin_of_not_below _ (rw scoped at (cleared w)) in
    (high, omega (arith, effective_rank-le org project))

pub require_permission-none :
    (context : AuthorizationContext) (p : Permission)
    → require_permission context p ≡ none
    → (authorize context p).allowed ≡ true
unfolding require_permission
require_permission-none context p h = ground arith
