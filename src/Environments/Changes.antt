-- ===== src/Environments/Changes.antt =====
-- `update` and `reorder` of packages/environments/src/index.ts.
pub mod Reordering
pub mod Update
mod Tests
use himitsu.Prelude.{
  ℕ, suc, Bool, true, false, ◌&&◌, ◌||◌, not, Option, none, some, List, [], ◌∷◌, filter, find, any,
  all, length, update_where, elem, distinct, ◌==◌, or_else, is_some, if◌then◌else◌,
}
use himitsu.Text.{Text, codes}
use himitsu.Authz.{environment_update}
use himitsu.Errors.{unique_violation, slug_exists, not_found, order_mismatch, Result, ok, err}
use himitsu.Exec.{Exec, pure, query, write, guard, ◌>>=◌, ◌>>◌, catch_unique}
use himitsu.Audit.{ResourceType, environment_updated, environment_reordered}
use himitsu.Audit.Metadata.{uuid, array, Items, nil, item, end, field}
use himitsu.Database.{Database, EnvironmentRow}
use himitsu.Tenant.{require, record_in_transaction}
use himitsu.Environments.{
  Environment, failed, from_row, normalize_environment_slug, validate_environment_name,
  is_active_in, has_id, require_active_project, event_of, summary, same_slot, get_row, list,
}

abbrev pub valid_name : Option Text → Text → Result Text
valid_name none before = ok before
valid_name (some name) before = validate_environment_name name

abbrev pub valid_slug : Option Text → Text → Result Text
valid_slug none before = ok before
valid_slug (some slug) before = normalize_environment_slug slug

abbrev pub rewritten : Text → Text → Bool → EnvironmentRow → EnvironmentRow
rewritten name slug protected e = record e { name = name; slug = slug; protected = protected }

-- `UPDATE environments SET name, slug, protected WHERE id AND deleted_at IS NULL RETURNING …`.
pub update_environment : ℕ → Text → Text → Bool → Exec Database EnvironmentRow
update_environment environment_id name slug protected db =
    elim (find (has_id environment_id false) db.environments) [
      | none ↦ (err (failed not_found), db)
      | some e ↦
          if any
            (λ (o : EnvironmentRow). not (o.id == environment_id) && same_slot e.project_id slug o)
            db.environments
          then (err unique_violation, db)
          else (
            ok (rewritten name slug protected e),
            record db {
              environments =
                  update_where (has_id environment_id false) (rewritten name slug protected)
                    db.environments;
            },
          )
    ]

abbrev pub next_position : Option ℕ → Option ℕ
next_position none = none
next_position (some k) = some (suc k)

-- `unnest(ids) WITH ORDINALITY`, counted from 0.
pub position_in : ℕ → List ℕ → Option ℕ
position_in id [] = none
position_in id (x ∷ xs) = if x == id then some 0 else next_position (position_in id xs)

abbrev pub placed : List ℕ → EnvironmentRow → EnvironmentRow
placed ids e = record e { display_order = or_else (position_in e.id ids) e.display_order }

abbrev pub is_placed : List ℕ → ℕ → EnvironmentRow → Bool
is_placed ids project_id e = is_active_in project_id e && is_some (position_in e.id ids)

abbrev pub uuids : List ℕ → Items
uuids [] = nil
uuids (id ∷ ids) = item (uuid id) (uuids ids)

-- The order holds every active environment exactly once.
pub order_covers : List ℕ → List EnvironmentRow → Bool
order_covers ids current =
    length current == length ids && all (λ (e : EnvironmentRow). elem e.id ids) current

module _ (actor_user_id : ℕ) where
  -- The `try` block of `update`.
  pub rewrite_row : ℕ → EnvironmentRow → Text → Text → Bool → Exec Database Environment
  rewrite_row environment_id before name slug protected = do
    row ← update_environment environment_id name slug protected
    org_id ← query (λ db. ok db.org_id)
    record_in_transaction (
        event_of org_id actor_user_id environment_updated ResourceType.environment environment_id
          before.project_id (some environment_id) (some (summary before)) (some (summary row)))
    pure (from_row org_id row)

  pub update : ℕ → Option Text → Option Text → Option Bool → Exec Database Environment
  update environment_id name slug protected = do
    before ← get_row actor_user_id environment_id false
    query (
        require actor_user_id (some before.project_id) (before.protected || or_else protected false)
          environment_update)
    name ← query (λ _. valid_name name before.name)
    slug ← query (λ _. valid_slug slug before.slug)
    catch_unique (failed slug_exists)
        (rewrite_row environment_id before name slug (or_else protected before.protected))

  pub reorder : ℕ → List ℕ → Exec Database (List Environment)
  reorder project_id ids = do
    query (require_active_project project_id)
    query (require actor_user_id (some project_id) false environment_update)
    guard (distinct ids) (failed order_mismatch)
    current ← query (λ db. ok (filter (is_active_in project_id) db.environments))
    guard (order_covers ids current) (failed order_mismatch)
    query (λ db.
        if any (λ (e : EnvironmentRow). e.protected) current
        then require actor_user_id (some project_id) true environment_update db
        else ok tt)
    write (λ db. record db {
      environments = update_where (is_placed ids project_id) (placed ids) db.environments;
    })
    org_id ← query (λ db. ok db.org_id)
    record_in_transaction (
        event_of org_id actor_user_id environment_reordered ResourceType.project project_id
          project_id none none (some (field (codes "environmentIds") (array (uuids ids)) end)))
    list actor_user_id project_id
