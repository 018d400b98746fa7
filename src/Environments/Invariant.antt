-- ===== src/Environments/Invariant.antt =====
-- The table constraints on environments (packages/database/migrations) as an invariant.
use himitsu.Prelude.{
  ◌≡◌, ◌∙◌, inl, inr, Bool-cases, ◌||◌, Bool, false, none, List, [], ◌∷◌, any, update_where, All,
  any-update_where, ◌==◌,
}
use himitsu.Database.{EnvironmentRow}
use himitsu.Environments.{same_slot}

abbrev pub clashes : EnvironmentRow → EnvironmentRow → Bool
clashes e o = o.id == e.id || same_slot e.project_id e.slug o

-- No two rows share an id, or a slug in one project.
abbrev pub HasKeys : List EnvironmentRow → Type 0
HasKeys [] = Unit
HasKeys (e ∷ rest) = (any (clashes e) rest ≡ false) × HasKeys rest

-- An active row has neither a purge time nor a mark of its project's deletion.
abbrev pub IsDated : EnvironmentRow → Type 0
IsDated e = e.deleted_at ≡ none → (e.purge_after ≡ none) × (e.deleted_by_project_at ≡ none)

pub record IsWellFormed (rows : List EnvironmentRow) : Type 0 where
  pub keyed : HasKeys rows
  pub dated : All IsDated rows

-- A statement that leaves ids, projects and slugs alone keeps the keys.
pub HasKeys-update_where :
    (q : EnvironmentRow → Bool) (f : EnvironmentRow → EnvironmentRow)
    → ((e o : EnvironmentRow) → clashes e (f o) ≡ clashes e o)
    → ((e : EnvironmentRow) → clashes (f e) ≡ clashes e)
    → (rows : List EnvironmentRow) → HasKeys rows
    → HasKeys (update_where q f rows)
HasKeys-update_where q f same same' [] h = tt
HasKeys-update_where q f same same' (e ∷ rest) (k, h) = (
  elim (Bool-cases (q e)) [
    | inl t ↦ rw (t, same' e) (any-update_where (clashes e) q f (same e) rest ∙ k)
    | inr t ↦ rw t (any-update_where (clashes e) q f (same e) rest ∙ k)
  ],
  HasKeys-update_where q f same same' rest h,
)
