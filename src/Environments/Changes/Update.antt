-- ===== src/Environments/Changes/Update.antt =====
-- What `update` of packages/environments/src/index.ts guarantees.
use himitsu.Prelude.{
  none, filter, find-holds, find-update_where, filter-update_where, ℕ, ◌≡◌, refl, ap, inl, inr,
  Bool, true, false, ◌&&◌, ◌||◌, not, Option, some, List, [], ◌∷◌, ◌++◌, All, any, find,
  update_where, or_else, ◌==◌, count_of_find, arith, Bool-cases, Option-cases,
}
use himitsu.Text.{Text, text_eq}
use himitsu.Text.Fields.{Renamed, Reslugged}
use himitsu.Environments.Creation.{name_bounds, slug_form}
use himitsu.Authz.{environment_update}
use himitsu.Tenant.{require, logged}
use himitsu.Tenant.Recording.{recorded}
use himitsu.Exec.{Exec, catch_unique, catch_unique-eq-ok}
use himitsu.Errors.{ok, slug_exists, Result-cases}
use himitsu.Database.{Database, EnvironmentRow}
use himitsu.Audit.{AuditEvent, ResourceType, environment_updated}
use himitsu.Environments.{
  Environment, event_of, summary, failed, from_row, has_id, find_environment, same_slot, get_row,
}
use himitsu.Environments.Invariant.{clashes, HasKeys}
use himitsu.Environments.Changes.{
  valid_name, valid_slug, rewritten, update_environment, rewrite_row, update,
}

text_eq_sym : (s t : Text) → text_eq s t ≡ text_eq t s
unfolding text_eq
text_eq_sym [] [] = refl
text_eq_sym [] (b ∷ t) = refl
text_eq_sym (a ∷ s) [] = refl
text_eq_sym (a ∷ s) (b ∷ t) = ground (arith, text_eq_sym s t)

module _ (id project : ℕ) (name slug : Text) (protected : Bool) where
  abbrev taken : EnvironmentRow → Bool
  taken o = not (o.id == id) && same_slot project slug o

  abbrev after_rewrite : List EnvironmentRow → List EnvironmentRow
  after_rewrite rows = update_where (has_id id false) (rewritten name slug protected) rows

  abbrev OfProject : EnvironmentRow → Type 0
  OfProject o = has_id id false o ≡ true → o.project_id ≡ project

  clash_of_id :
      (x o : EnvironmentRow) → (x.id == id) ≡ true → has_id id false o ≡ true → clashes x o ≡ true
  clash_of_id x o same h = ground arith

  -- Behind a row with the id there is no other.
  no_other :
      (x : EnvironmentRow) (rest : List EnvironmentRow)
      → (x.id == id) ≡ true
      → any (clashes x) rest ≡ false
      → (after_rewrite rest ≡ rest) × All OfProject rest
  no_other x [] same k = (refl, tt)
  no_other x (o ∷ rest) same k =
      let (kept, clear) = no_other x rest same (ground arith) in
      (ground arith, (λ h. ground arith, clear))

  All-OfProject :
      (rows : List EnvironmentRow) (e : EnvironmentRow)
      → HasKeys rows
      → find (has_id id false) rows ≡ some e
      → e.project_id ≡ project
      → All OfProject rows
  All-OfProject [] e k h p = tt
  All-OfProject (x ∷ rest) e (k, ks) h p = elim (Bool-cases (x.id == id)) [
    | inl same ↦ (λ a. ground arith, (no_other x rest same k).1)
    | inr other ↦ (λ a. ground arith, All-OfProject rest e ks (ground arith) p)
  ]

  -- Rewriting the row `id`, of `project`, keeps the keys where no other row has its slot.
  any_clash_rewritten :
      (x : EnvironmentRow) (rows : List EnvironmentRow)
      → (x.id == id) ≡ false
      → taken x ≡ false
      → any (clashes x) rows ≡ false
      → All OfProject rows
      → any (clashes x) (after_rewrite rows) ≡ false
  any_clash_rewritten x [] other free k of_project = refl
  any_clash_rewritten x (o ∷ rest) other free k (p, ps) =
      ground (arith, any_clash_rewritten x rest other free, text_eq_sym slug x.slug)

  any_clash_new :
      (x : EnvironmentRow) (rest : List EnvironmentRow)
      → (x.id == id) ≡ true
      → x.project_id ≡ project
      → any (clashes x) rest ≡ false
      → any taken rest ≡ false
      → any (clashes (rewritten name slug protected x)) rest ≡ false
  any_clash_new x [] same p k free = refl
  any_clash_new x (o ∷ rest) same p k free = ground (arith, any_clash_new x rest same p)

  HasKeys-rewritten :
      (rows : List EnvironmentRow) (e : EnvironmentRow)
      → HasKeys rows
      → find (has_id id false) rows ≡ some e
      → e.project_id ≡ project
      → any taken rows ≡ false
      → HasKeys (after_rewrite rows)
  HasKeys-rewritten [] e k h p free = tt
  HasKeys-rewritten (x ∷ rest) e (k, ks) h p free = elim (Bool-cases (x.id == id)) [
    | inl same ↦
        let (kept, _) = no_other x rest same k in
        (
          rw kept (
              ground (
                arith,
                any_clash_new x rest same,
                count_of_find (has_id id false) (clashes x) (λ y. clash_of_id x y same) rest e,
              )),
          rw kept ks,
        )
    | inr other ↦ (
      ground (
        arith,
        any_clash_rewritten x rest other (ground arith) k
            (All-OfProject rest e ks (ground arith) p),
      ),
      HasKeys-rewritten rest e ks (ground arith) p (ground arith),
    )
  ]

module _ (actor id : ℕ) (name slug : Option Text) (protected : Option Bool) where
  abbrev guarded : EnvironmentRow → Bool
  guarded e = e.protected || or_else protected false

  abbrev renamed : EnvironmentRow → Text → Text → EnvironmentRow
  renamed e n s = rewritten n s (or_else protected e.protected) e

  abbrev updated : Database → EnvironmentRow → Text → Text → Database
  updated db e n s = record db {
    environments =
        after_rewrite id e.project_id n s (or_else protected e.protected) db.environments;
  }

  abbrev update_event : Database → EnvironmentRow → Text → Text → AuditEvent
  update_event db e n s =
      event_of db.org_id actor environment_updated ResourceType.environment id e.project_id
        (some id) (some (summary e)) (some (summary (renamed e n s)))

  update_row :
      (db db' : Database) (result : Environment)
      → update actor id name slug protected db ≡ (ok result, db')
      → (e : EnvironmentRow) × (find (has_id id false) db.environments ≡ some e)
  unfolding update get_row find_environment
  update_row db db' result h = elim (Option-cases (find (has_id id false) db.environments)) [
    | inl missing ↦ ground arith
    | inr found ↦ found
  ]

  update_inputs :
      (db db' : Database) (result : Environment) (e : EnvironmentRow)
      → find (has_id id false) db.environments ≡ some e
      → update actor id name slug protected db ≡ (ok result, db')
      → (n s : Text) × (valid_name name e.name ≡ ok n) × (valid_slug slug e.slug ≡ ok s)
  unfolding update get_row find_environment
  update_inputs db db' result e found h = elim (Result-cases (valid_name name e.name)) [
    | inl (x, bad) ↦ ground arith
    | inr (n, named) ↦ elim (Result-cases (valid_slug slug e.slug)) [
      | inl (x, bad) ↦ ground arith
      | inr (s, slugged) ↦ (n, s, named, slugged)
    ]
  ]

  abbrev rewriting : EnvironmentRow → Text → Text → Exec Database Environment
  rewriting e n s = rewrite_row actor id e n s (or_else protected e.protected)

  update-attempt :
      (db db' : Database) (result : Environment) (e : EnvironmentRow) (n s : Text)
      → find (has_id id false) db.environments ≡ some e
      → valid_name name e.name ≡ ok n
      → valid_slug slug e.slug ≡ ok s
      → update actor id name slug protected db ≡ (ok result, db')
      → (require actor (some e.project_id) (guarded e) environment_update db ≡ ok tt)
        × (catch_unique (failed slug_exists) (rewriting e n s) db ≡ (ok result, db'))
  unfolding update get_row find_environment
  update-attempt db db' result e n s found named slugged h = (ground arith, ground arith)

  rewriting-ok :
      (db db' : Database) (result : Environment) (e : EnvironmentRow) (n s : Text)
      → find (has_id id false) db.environments ≡ some e
      → rewriting e n s db ≡ (ok result, db')
      → (any (taken id e.project_id n s (or_else protected e.protected)) db.environments ≡ false)
        × (db' ≡ logged (update_event db e n s) (updated db e n s))
        × (result ≡ from_row db.org_id (renamed e n s))
  unfolding rewrite_row update_environment
  rewriting-ok db db' result e n s found h =
      let logging = recorded (update_event db e n s) (updated db e n s) in
      (ground arith, ground (arith, logging), ground (arith, logging))

  name_kept :
      (given : Option Text) (before n : Text)
      → valid_name given before ≡ ok n
      → Renamed 80 given before n
  name_kept none before n h = ground arith
  name_kept (some t) before n h = name_bounds t n h

  slug_kept :
      (given : Option Text) (before s : Text)
      → valid_slug given before ≡ ok s
      → Reslugged given before s
  slug_kept none before s h = ground arith
  slug_kept (some t) before s h = slug_form t s h

  -- Where ids, and the slugs of each project, are not repeated, an update that returns keeps them
  -- so. The active row of the id is found with the name, the slug and the protection that were
  -- given, the name trimmed with 1 to 80 characters and the slug in normal form with 80 at most, or
  -- else with what it had; nothing else of it changes, and no other row does. The answer has the
  -- id and the new values. If the environment is protected, or becomes so, the actor may write in a protected
  -- environment. One event is appended.
  pub update_effect :
      (db db' : Database) (result : Environment)
      → HasKeys db.environments
      → update actor id name slug protected db ≡ (ok result, db')
      → (e : EnvironmentRow) × (find (has_id id false) db.environments ≡ some e)
        × (require actor
              (some e.project_id)
              (e.protected || or_else protected false)
              environment_update
              db
            ≡ ok tt)
        × HasKeys db'.environments
        × Renamed 80 name e.name result.name
        × Reslugged slug e.slug result.slug
        × (result.id ≡ id)
        × (result.protected ≡ or_else protected e.protected)
        × (find (has_id id false) db'.environments
            ≡ some (record e {
              name = result.name;
              slug = result.slug;
              protected = or_else protected e.protected;
            }))
        × (filter (λ (o : EnvironmentRow). not (has_id id false o)) db'.environments
            ≡ filter (λ (o : EnvironmentRow). not (has_id id false o)) db.environments)
        × ((event : AuditEvent) × (db'.audit_events ≡ db.audit_events ++ event ∷ []))
  unfolding from_row
  update_effect db db' result keyed h =
      let (e, found) = update_row db db' result h in
      let (n, s, named, slugged) = update_inputs db db' result e found h in
      let (permitted, tried) = update-attempt db db' result e n s found named slugged h in
      let done = catch_unique-eq-ok (failed slug_exists) (rewriting e n s) db db' result tried in
      let (free, tables, returned) = rewriting-ok db db' result e n s found done in
      let here = find-holds (has_id id false) db.environments e found in
      let changes = rewritten n s (or_else protected e.protected) in
      (
        e,
        found,
        permitted,
        rw tables (
            HasKeys-rewritten id e.project_id n s (or_else protected e.protected) db.environments e
              keyed found refl free),
        rw returned (name_kept name e.name n named),
        rw returned (slug_kept slug e.slug s slugged),
        rw returned (ground (arith, here)),
        rw returned refl,
        rw (tables, returned)
            (find-update_where (has_id id false) changes (λ x. refl) db.environments e found),
        rw tables (filter-update_where (has_id id false) changes (λ x. refl) db.environments),
        (update_event db e n s, ap (λ (b : Database). b.audit_events) tables),
      )
