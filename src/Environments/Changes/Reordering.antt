-- ===== src/Environments/Changes/Reordering.antt =====
-- What `reorder` of packages/environments/src/index.ts guarantees.
use himitsu.Prelude.{
  get_elem?, suc, ap, inl, inr, Bool-cases, Option-cases, ◌==◌, ℕ, ◌≡◌, refl, true, false, not,
  none, some, is_some, map, List, [], ◌∷◌, any, all, elem, distinct, All, filter, update_where,
  length, count_where, length-filter, if◌then◌else◌, arith,
}
use himitsu.Text.{codes}
use himitsu.Authz.{environment_update}
use himitsu.Tenant.{require, logged}
use himitsu.Tenant.Recording.{recorded}
use himitsu.Errors.{ok}
use himitsu.Audit.{AuditEvent, ResourceType, environment_reordered}
use himitsu.Audit.Metadata.{array, end, field}
use himitsu.Database.{Database, EnvironmentRow}
use himitsu.Environments.{Environment, is_active_in, active_environments, event_of, list}
use himitsu.Environments.Changes.{position_in, placed, is_placed, uuids, order_covers, reorder}

-- A row with its display order forgotten.
abbrev pub without_order : EnvironmentRow → EnvironmentRow
without_order e = record e { display_order = 0 }

module _ (actor project : ℕ) (ids : List ℕ) where
  abbrev current : Database → List EnvironmentRow
  current db = filter (is_active_in project) db.environments

  abbrev reordered : Database → Database
  reordered db = record db {
    environments = update_where (is_placed ids project) (placed ids) db.environments;
  }

  abbrev reordering_event : Database → AuditEvent
  reordering_event db =
      event_of db.org_id actor environment_reordered ResourceType.project project project none none
        (some (field (codes "environmentIds") (array (uuids ids)) end))

  reorder-ok :
      (db db' : Database) (result : List Environment)
      → reorder actor project ids db ≡ (ok result, db')
      → (distinct ids ≡ true)
        × (order_covers ids (current db) ≡ true)
        × (any (λ (e : EnvironmentRow). e.protected) (current db) ≡ true
            → require actor (some project) true environment_update db ≡ ok tt)
        × (require actor (some project) false environment_update db ≡ ok tt)
        × (db' ≡ logged (reordering_event db) (reordered db))
        × (result ≡ active_environments project db')
  unfolding reorder list
  reorder-ok db db' result h =
      let logging = recorded (reordering_event db) (reordered db) in
      (
        ground arith,
        ground arith,
        λ p. ground arith,
        ground arith,
        ground (arith, logging),
        ground (arith, logging),
      )

position_of_elem : (id : ℕ) (xs : List ℕ) → elem id xs ≡ true → is_some (position_in id xs) ≡ true
unfolding position_in
position_of_elem id [] h = cc
position_of_elem id (x ∷ xs) h = ground (arith, position_of_elem id xs)

-- The position of an id is where the list holds it.
get_elem?-position_in :
    (id k : ℕ) (xs : List ℕ) → position_in id xs ≡ some k → get_elem? xs k ≡ some id
unfolding position_in
get_elem?-position_in id k [] h = cc
get_elem?-position_in id k (x ∷ xs) h = elim (Bool-cases (x == id)) [
  | inl here ↦
      let same : x ≡ id = ground (arith, here) in
      let first : k ≡ 0 = ground (arith, here, h) in rw first (ap (λ (n : ℕ). some n) same)
  | inr other ↦ elim (Option-cases (position_in id xs)) [
    | inl missing ↦ ground (arith, other, missing, h)
    | inr (n, found) ↦
        let later : k ≡ suc n = ground (arith, other, found, h) in
        rw later (get_elem?-position_in id n xs found)
  ]
]

module _ (project : ℕ) (ids : List ℕ) where
  placed_position :
      (e : EnvironmentRow)
      → (is_active_in project e ≡ true → elem e.id ids ≡ true)
      → is_active_in project (if is_placed ids project e then placed ids e else e) ≡ true
      → position_in e.id ids
        ≡ some (if is_placed ids project e then placed ids e else e).display_order
  placed_position e covered active = ground (arith, position_of_elem e.id ids)

  placed_id : (e : EnvironmentRow) → (if is_placed ids project e then placed ids e else e).id ≡ e.id
  placed_id e = ground arith

  all-placed :
      (rows : List EnvironmentRow)
      → all (λ (e : EnvironmentRow). elem e.id ids) (filter (is_active_in project) rows) ≡ true
      → All
          (λ (e : EnvironmentRow).
            is_active_in project e ≡ true → get_elem? ids e.display_order ≡ some e.id)
          (update_where (is_placed ids project) (placed ids) rows)
  all-placed [] h = tt
  all-placed (e ∷ rest) h = (
    λ active.
        rw (placed_id e)
          (get_elem?-position_in e.id _ ids (placed_position e (λ a. ground arith) active)),
    all-placed rest (ground arith),
  )

  others_kept :
      (rows : List EnvironmentRow)
      → filter
          (λ e. not (is_active_in project e))
          (update_where (is_placed ids project) (placed ids) rows)
        ≡ filter (λ e. not (is_active_in project e)) rows
  others_kept [] = refl
  others_kept (e ∷ rest) = ground (arith, others_kept rest)

  only_orders :
      (rows : List EnvironmentRow)
      → map without_order (update_where (is_placed ids project) (placed ids) rows)
        ≡ map without_order rows
  only_orders [] = refl
  only_orders (e ∷ rest) = ground (arith, only_orders rest)

-- A reordering that returns was given every active environment of the project exactly once. The
-- given list, counted from 0, then holds the id of each of them at its display order; nothing else of
-- any row changes, and rows that are deleted or of another project keep their order too. If one of
-- the environments is protected, the actor may write in a protected environment. The answer lists
-- the active environments of the new table.
pub reorder_effect :
    (actor project : ℕ) (ids : List ℕ) (db db' : Database) (result : List Environment)
    → reorder actor project ids db ≡ (ok result, db')
    → (distinct ids ≡ true)
      × (count_where (is_active_in project) db.environments ≡ length ids)
      × All
          (λ (e : EnvironmentRow).
            is_active_in project e ≡ true → get_elem? ids e.display_order ≡ some e.id)
          db'.environments
      × (map without_order db'.environments ≡ map without_order db.environments)
      × (filter (λ e. not (is_active_in project e)) db'.environments
          ≡ filter (λ e. not (is_active_in project e)) db.environments)
      × (any (λ (e : EnvironmentRow). e.protected) (filter (is_active_in project) db.environments)
            ≡ true
          → require actor (some project) true environment_update db ≡ ok tt)
      × (result ≡ active_environments project db')
unfolding order_covers
reorder_effect actor project ids db db' result h =
    let (once, covers, guarded, _, tables, returned) =
      reorder-ok actor project ids db db' result h in
    (
      once,
      ground (arith, length-filter (is_active_in project) db.environments),
      rw tables (all-placed project ids db.environments (ground arith)),
      rw tables (only_orders project ids db.environments),
      rw tables (others_kept project ids db.environments),
      guarded,
      returned,
    )
