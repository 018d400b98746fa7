-- ===== src/Projects/Deletion/Rows.antt =====
-- Deletion marks on the rows of the tables, set and taken back.
use himitsu.Prelude.{
  ℕ, ◌≡◌, ◌≢◌, refl, inl, inr, Bool, true, false, Option, none, some, List, [], ◌∷◌, All, any, find,
  update_where, ◌==◌, count_of_find, Bool-cases, arith,
}
use himitsu.Text.{Text}
use himitsu.Errors.{Result, ok, err}
use himitsu.Database.{Database, ProjectRow, EnvironmentRow, SecretRow}
use himitsu.Environments.{is_active_in}
use himitsu.Projects.{Project, has_id, find_project, view}
use himitsu.Projects.Deletion.{
  bury, bury_environment, in_project, bury_secret, dig_up, environment_buried_at,
  dig_up_environment, secret_buried_at, dig_up_secret,
}

abbrev pub same_id : ℕ → ProjectRow → Bool
same_id project_id p = p.id == project_id

-- No two rows share an id, and an active row has no purge time.
abbrev pub IsWellFormed : List ProjectRow → Type 0
IsWellFormed [] = Unit
IsWellFormed (p ∷ rest) =
    (any (same_id p.id) rest ≡ false)
    × (p.deleted_at ≡ none → p.purge_after ≡ none)
    × IsWellFormed rest

-- No earlier deletion of the project left the stamp, and an active row carries no mark.
abbrev pub IsUnmarked : ℕ → Option ℕ → Option ℕ → Type 0
IsUnmarked now deleted_at mark = (mark ≢ some now) × (deleted_at ≡ none → mark ≡ none)

abbrev pub EnvironmentsAreUnmarked : ℕ → List EnvironmentRow → Type 0
EnvironmentsAreUnmarked now =
    All (λ (e : EnvironmentRow). IsUnmarked now e.deleted_at e.deleted_by_project_at)

abbrev pub SecretsAreUnmarked : ℕ → List SecretRow → Type 0
SecretsAreUnmarked now =
    All (λ (s : SecretRow). IsUnmarked now s.deleted_at s.deleted_by_project_at)

pub dig_up_environment-bury :
    (id now : ℕ) (rows : List EnvironmentRow)
    → EnvironmentsAreUnmarked now rows
    → update_where
        (environment_buried_at id (some now))
        dig_up_environment
        (update_where (is_active_in id) (bury_environment now) rows)
      ≡ rows
dig_up_environment-bury id now [] u = refl
dig_up_environment-bury id now (e ∷ rest) (u, us) =
    ground (arith, dig_up_environment-bury id now rest us)

pub dig_up_secret-bury :
    (id now : ℕ) (rows : List SecretRow)
    → SecretsAreUnmarked now rows
    → update_where
        (secret_buried_at id (some now))
        dig_up_secret
        (update_where (in_project id) (bury_secret now) rows)
      ≡ rows
dig_up_secret-bury id now [] u = refl
dig_up_secret-bury id now (s ∷ rest) (u, us) = ground (arith, dig_up_secret-bury id now rest us)

id_shared :
    (id : ℕ) (x y : ProjectRow)
    → x.id == id ≡ true
    → has_id id false y ≡ true
    → same_id x.id y ≡ true
id_shared id x y h k = ground arith

untouched :
    (id now purge : ℕ) (rows : List ProjectRow)
    → any (same_id id) rows ≡ false
    → update_where (has_id id true) dig_up (update_where (has_id id false) (bury now purge) rows)
      ≡ rows
untouched id now purge [] h = refl
untouched id now purge (p ∷ rest) h = ground (arith, untouched id now purge rest)

any-same_id :
    (id other : ℕ) (rows : List ProjectRow)
    → id == other ≡ true
    → any (same_id id) rows ≡ any (same_id other) rows
any-same_id id other [] h = refl
any-same_id id other (p ∷ rest) h = ground (arith, any-same_id id other rest h)

pub dig_up-bury :
    (id now purge : ℕ) (rows : List ProjectRow) (p : ProjectRow)
    → IsWellFormed rows
    → find (has_id id false) rows ≡ some p
    → update_where (has_id id true) dig_up (update_where (has_id id false) (bury now purge) rows)
      ≡ rows
dig_up-bury id now purge [] p w h = cc
dig_up-bury id now purge (x ∷ rest) p (k, d, ws) h = elim (Bool-cases (x.id == id)) [
  | inl same ↦ ground (
    arith,
    untouched id now purge rest,
    any-same_id x.id id rest same,
    count_of_find (has_id id false) (same_id x.id) (λ y. id_shared id x y same) rest p,
  )
  | inr other ↦ ground (arith, dig_up-bury id now purge rest p ws)
]

pub find-bury :
    (id now purge : ℕ) (rows : List ProjectRow) (p : ProjectRow)
    → IsWellFormed rows
    → find (has_id id false) rows ≡ some p
    → find (has_id id true) (update_where (has_id id false) (bury now purge) rows)
      ≡ some (bury now purge p)
find-bury id now purge [] p w h = cc
find-bury id now purge (x ∷ rest) p (k, d, ws) h = elim (Bool-cases (x.id == id)) [
  | inl same ↦
      ground
        (arith, count_of_find (has_id id false) (same_id x.id) (λ y. id_shared id x y same) rest p)
  | inr other ↦ ground (arith, find-bury id now purge rest p ws)
]

pub found_row :
    (id : ℕ) (db : Database) (p : ProjectRow)
    → find_project id false db ≡ ok p
    → find (has_id id false) db.projects ≡ some p
unfolding find_project
found_row id db p h = ground arith

pub view_times :
    (db : Database) (row : ProjectRow) (settings : Result (List Text)) (p : Project)
    → view db row settings ≡ ok p
    → (p.deleted_at ≡ row.deleted_at) × (p.purge_after ≡ row.purge_after)
view_times db row (err e) p h = cc
view_times db row (ok slugs) p h = (ground arith, ground arith)
