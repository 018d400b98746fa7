-- ===== src/Environments/Deletion/RoundTrip.antt =====
-- Restoring an environment undoes its deletion.
use himitsu.Prelude.{
  ℕ, ◌+◌, ◌<◌, ◌≡◌, ◌≢◌, refl, ap, ◌∙◌, inl, inr, Bool, true, false, none, some, List, [], ◌∷◌, All,
  find, update_where, ◌==◌, count_of_find, arith, Bool-cases,
}
use himitsu.Errors.{ok}
use himitsu.Authz.{environment_read, environment_delete}
use himitsu.Tenant.Recording.{require_frame}
use himitsu.Database.{Database, EnvironmentRow, SecretRow}
use himitsu.Environments.{Environment, from_row, has_id, find_environment, require_active_project}
use himitsu.Environments.Invariant.{clashes, HasKeys, IsDated, IsWellFormed}
use himitsu.Environments.Deletion.{
  bury, in_environment, bury_secret, bury_all, buried_at, dig_up, secret_buried_at, dig_up_secret,
  dig_up_all, delete, restore,
}
use himitsu.Environments.Deletion.Runs.{delete-ok, Deleted, dug_up, restore_returns}

-- The stamp marks no earlier deletion.
abbrev pub IsFreshIn : ℕ → List EnvironmentRow → Type 0
IsFreshIn now = All (λ (e : EnvironmentRow). e.deleted_at ≢ some now)

-- No earlier deletion of the environment left the stamp, and an active secret carries no mark.
abbrev pub IsUnmarked : ℕ → SecretRow → Type 0
IsUnmarked now s =
    (s.deleted_by_environment_at ≢ some now)
    × (s.deleted_at ≡ none
        → (s.deleted_by_environment_at ≡ none) × (s.deleted_by_project_at ≡ none))

dig_up-bury :
    (id now purge : ℕ) (rows : List EnvironmentRow)
    → All IsDated rows
    → IsFreshIn now rows
    → update_where
        (buried_at id (some now))
        dig_up
        (update_where (has_id id false) (bury now purge) rows)
      ≡ rows
dig_up-bury id now purge [] d f = refl
dig_up-bury id now purge (e ∷ rest) (d, ds) (f, fs) =
    ground (arith, dig_up-bury id now purge rest ds fs)

dig_up_secret-bury :
    (id now : ℕ) (rows : List SecretRow)
    → All (IsUnmarked now) rows
    → update_where
        (secret_buried_at id (some now))
        dig_up_secret
        (update_where (in_environment id) (bury_secret now) rows)
      ≡ rows
dig_up_secret-bury id now [] u = refl
dig_up_secret-bury id now (s ∷ rest) (u, us) = ground (arith, dig_up_secret-bury id now rest us)

pub id_clash :
    (id : ℕ) (x y : EnvironmentRow)
    → x.id == id ≡ true
    → has_id id false y ≡ true
    → clashes x y ≡ true
id_clash id x y h k = ground arith

find-bury :
    (id now purge : ℕ) (rows : List EnvironmentRow) (e : EnvironmentRow)
    → HasKeys rows
    → find (has_id id false) rows ≡ some e
    → find (has_id id true) (update_where (has_id id false) (bury now purge) rows)
      ≡ some (bury now purge e)
find-bury id now purge [] e k h = cc
find-bury id now purge (x ∷ rest) e (k, ks) h = elim (Bool-cases (x.id == id)) [
  | inl same ↦
      ground (arith, count_of_find (has_id id false) (clashes x) (λ y. id_clash id x y same) rest e)
  | inr other ↦ ground (arith, find-bury id now purge rest e ks)
]

pub found_row :
    (id : ℕ) (db : Database) (e : EnvironmentRow)
    → find_environment id false db ≡ ok e
    → find (has_id id false) db.environments ≡ some e
unfolding find_environment
found_row id db e h = ground arith

pub found_is_active :
    (id : ℕ) (rows : List EnvironmentRow) (e : EnvironmentRow)
    → All IsDated rows
    → find (has_id id false) rows ≡ some e
    → (e.deleted_at ≡ none) × (e.purge_after ≡ none) × (e.deleted_by_project_at ≡ none)
found_is_active id [] e d h = cc
found_is_active id (x ∷ rest) e (d, ds) h = ground (arith, found_is_active id rest e ds)

module _ (recovery_ms now actor id : ℕ) (db : Database) (well : IsWellFormed db.environments)
    (fresh : IsFreshIn now db.environments) (unmarked : All (IsUnmarked now) db.secrets)
    {confirm : Bool} {db' : Database} {result : Environment}
    (d : Deleted recovery_ms now actor id confirm db db' result) where
  abbrev grave : EnvironmentRow
  grave = bury now (now + recovery_ms) d.environment

  grave_found : find_environment id true db' ≡ ok grave
  unfolding find_environment bury_all
  grave_found = ground (
    arith,
    d.tables,
    find-bury id now (now + recovery_ms) db.environments d.environment well.keyed
        (found_row id db d.environment d.found),
  )

  module _ (later : ℕ) where
    abbrev recovered : Database
    recovered = dug_up recovery_ms later actor id db' grave

    environments_back : recovered.environments ≡ db.environments
    unfolding bury_all dig_up_all
    environments_back =
        ap (λ (b : Database). update_where (buried_at id (some now)) dig_up b.environments) d.tables
        ∙ dig_up-bury id now (now + recovery_ms) db.environments well.dated fresh

    secrets_back : recovered.secrets ≡ db.secrets
    unfolding bury_all dig_up_all
    secrets_back =
        ap (λ (b : Database). update_where (secret_buried_at id (some now)) dig_up_secret b.secrets)
          d.tables
        ∙ dig_up_secret-bury id now db.secrets unmarked

    rest_kept :
        (recovered.memberships ≡ db.memberships)
        × (recovered.overrides ≡ db.overrides)
        × (recovered.projects ≡ db.projects)
    unfolding bury_all dig_up_all
    rest_kept = (
      ap (λ (b : Database). b.memberships) d.tables,
      ap (λ (b : Database). b.overrides) d.tables,
      ap (λ (b : Database). b.projects) d.tables,
    )

    buried_kept :
        (db'.memberships ≡ db.memberships)
        × (db'.overrides ≡ db.overrides)
        × (db'.projects ≡ db.projects)
        × (db'.org_id ≡ db.org_id)
    unfolding bury_all
    buried_kept = (
      ap (λ (b : Database). b.memberships) d.tables,
      ap (λ (b : Database). b.overrides) d.tables,
      ap (λ (b : Database). b.projects) d.tables,
      ap (λ (b : Database). b.org_id) d.tables,
    )

    recovers :
        require_active_project d.environment.project_id db ≡ ok tt
        → later < now + recovery_ms
        → restore recovery_ms later actor id db'
          ≡ (ok (from_row db.org_id d.environment), recovered)
    unfolding require_active_project find_environment
    recovers active early =
        let (gone_at, _, own) =
          found_is_active id db.environments d.environment well.dated
            (found_row id db d.environment d.found) in
        let (m, o, p, org) = buried_kept in
        let (m', o', p') = rest_kept in
        rw (← org) (
          restore_returns recovery_ms later actor id db' grave d.environment grave_found
            (require_frame actor _ false environment_read db db' m o ∙ d.readable) (ground arith)
            own (rw p active)
            (require_frame actor _ d.environment.protected environment_delete db db' m o
              ∙ d.permitted)
            (rw environments_back d.found)
            (require_frame actor _ false environment_read db recovered m' o' ∙ d.readable))

recovered_view :
    (org_id now purge : ℕ) (e : EnvironmentRow) (result : Environment)
    → e.deleted_at ≡ none
    → e.purge_after ≡ none
    → result ≡ from_row org_id (bury now purge e)
    → from_row org_id e ≡ record result { deleted_at = none; purge_after = none }
unfolding from_row
recovered_view org_id now purge e result gone kept same = ground arith

-- An environment that was deleted can be restored by the same actor at any moment before its
-- recovery window ends, if its project is active: the restoration returns the environment with no
-- deletion time, and leaves the environments, the secrets, the projects and the roles exactly as
-- they were before the deletion. The keys of the table hold, rows that are not deleted carry no
-- marks of a deletion, and no earlier deletion has the same time.
pub restore-delete :
    (recovery_ms now later actor id : ℕ) (confirm : Bool) (db db' : Database) (result : Environment)
    → IsWellFormed db.environments
    → IsFreshIn now db.environments
    → All (IsUnmarked now) db.secrets
    → delete recovery_ms now actor id confirm db ≡ (ok result, db')
    → require_active_project result.project_id db ≡ ok tt
    → later < now + recovery_ms
    → (db'' : Database) × (restore recovery_ms later actor id db'
        ≡ (ok (record result { deleted_at = none; purge_after = none }), db''))
      × (db''.environments ≡ db.environments)
      × (db''.secrets ≡ db.secrets)
      × (db''.projects ≡ db.projects)
      × (db''.memberships ≡ db.memberships)
      × (db''.overrides ≡ db.overrides)
unfolding from_row
restore-delete recovery_ms now later actor id confirm db db' result well fresh unmarked deleted
      active early =
    let d = delete-ok recovery_ms now actor id confirm db db' result deleted in
    let (gone_at, purge, _) =
      found_is_active id db.environments d.environment well.dated
        (found_row id db d.environment d.found) in
    let same_project = ap (λ (r : Environment). r.project_id) d.returned in
    let (m, o, p) = rest_kept recovery_ms now actor id db well fresh unmarked d later in
    (
      recovered recovery_ms now actor id db well fresh unmarked d later,
      recovers recovery_ms now actor id db well fresh unmarked d later (rw (← same_project) active)
            early
          ∙ ap
              (λ (r : Environment).
                (ok r, recovered recovery_ms now actor id db well fresh unmarked d later))
              (recovered_view db.org_id now (now + recovery_ms) d.environment result gone_at purge
                d.returned),
      environments_back recovery_ms now actor id db well fresh unmarked d later,
      secrets_back recovery_ms now actor id db well fresh unmarked d later,
      p,
      m,
      o,
    )
