-- ===== src/Environments/Deletion/Effect.antt =====
-- What a deletion leaves behind.
use himitsu.Prelude.{
  ℕ, ◌+◌, ◌≤◌, ◌≡◌, refl, ap, inl, inr, Bool, true, false, none, some, List, [], ◌∷◌, ◌++◌, any,
  find, count_where, update_where, ◌==◌, if◌then◌else◌, count_of_find, arith, Bool-cases,
}
use himitsu.Errors.{ok, err, not_found}
use himitsu.Database.{Database, EnvironmentRow, SecretRow}
use himitsu.Environments.{Environment, failed, from_row, has_id, is_active_in, find_environment}
use himitsu.Environments.Invariant.{clashes, HasKeys}
use himitsu.Environments.Deletion.{bury, in_environment, bury_secret, bury_all, delete}
use himitsu.Environments.Deletion.Runs.{delete-ok, deletion_event}
use himitsu.Environments.Deletion.RoundTrip.{found_row, id_clash}

module _ (id now purge : ℕ) where
  abbrev rest_buried : List EnvironmentRow → List EnvironmentRow
  rest_buried rows = update_where (has_id id false) (bury now purge) rows

  none_found :
      (x : EnvironmentRow) (rest : List EnvironmentRow)
      → x.id == id ≡ true
      → any (clashes x) rest ≡ false
      → rest_buried rest ≡ rest
  none_found x [] same k = refl
  none_found x (y ∷ rest) same k = ground (arith, none_found x rest same, id_clash id x y same)

  count-bury :
      (p : ℕ) (rows : List EnvironmentRow) (e : EnvironmentRow)
      → HasKeys rows
      → find (has_id id false) rows ≡ some e
      → count_where (is_active_in p) (rest_buried rows) + (if e.project_id == p then 1 else 0)
        ≡ count_where (is_active_in p) rows
  count-bury p [] e k h = cc
  count-bury p (x ∷ rest) e (k, ks) h = elim (Bool-cases (x.id == id)) [
    | inl same ↦ ground (
      arith,
      none_found x rest same k,
      count_of_find (has_id id false) (clashes x) (λ y. id_clash id x y same) rest e,
    )
    | inr other ↦ ground (arith, count-bury p rest e ks)
  ]

  find_buried : (rows : List EnvironmentRow) → find (has_id id false) (rest_buried rows) ≡ none
  find_buried [] = refl
  find_buried (x ∷ rest) = ground (arith, find_buried rest)

  count_secrets-bury :
      (rows : List SecretRow)
      → count_where (in_environment id) (update_where (in_environment id) (bury_secret now) rows)
        ≡ 0
  count_secrets-bury [] = refl
  count_secrets-bury (s ∷ rest) = ground (arith, count_secrets-bury rest)

-- Where ids and slugs are not repeated, a deletion that returns takes exactly one active
-- environment from its project and none from any other, and leaves the project at least one. The
-- environment is no longer found, none of its secrets is active, and the one event appended says
-- how many secrets went with it.
pub delete_effect :
    (recovery_ms now actor id : ℕ) (confirm : Bool) (db db' : Database) (result : Environment)
    → HasKeys db.environments
    → delete recovery_ms now actor id confirm db ≡ (ok result, db')
    → ((p : ℕ)
        → count_where (is_active_in p) db'.environments + (if result.project_id == p then 1 else 0)
          ≡ count_where (is_active_in p) db.environments)
      × (1 ≤ count_where (is_active_in result.project_id) db'.environments)
      × (find_environment id false db' ≡ err (failed not_found))
      × (count_where (in_environment id) db'.secrets ≡ 0)
      × ((e : EnvironmentRow) × (find_environment id false db ≡ ok e)
          × (db'.audit_events
              ≡ db.audit_events ++ deletion_event recovery_ms now actor id db e ∷ []))
unfolding bury_all from_row find_environment
delete_effect recovery_ms now actor id confirm db db' result keyed h =
    let d = delete-ok recovery_ms now actor id confirm db db' result h in
    let e = d.environment in
    let counts : (p : ℕ)
        → count_where (is_active_in p) db'.environments + (if result.project_id == p then 1 else 0)
          ≡ count_where (is_active_in p) db.environments =
      λ p.
        rw (d.tables, d.returned)
          (count-bury id now (now + recovery_ms) p db.environments e keyed
            (found_row id db e d.found)) in
    (
      counts,
      ground (
        arith,
        counts result.project_id,
        d.spared,
        ap (λ (r : Environment). r.project_id) d.returned,
      ),
      rw d.tables (rw (find_buried id now (now + recovery_ms) db.environments)),
      rw d.tables (count_secrets-bury id now (now + recovery_ms) db.secrets),
      (e, d.found, ap (λ (b : Database). b.audit_events) d.tables),
    )
