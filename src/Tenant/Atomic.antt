-- ===== src/Tenant/Atomic.antt =====
-- A tenant's transaction is all or nothing, and open to active members only.
use himitsu.Prelude.{ℕ, ◌≡◌, refl, ◌⊎◌, inl, inr, count_where, ◌==◌, ◌&&◌, arith, Bool-cases}
use himitsu.Errors.{Error, Result, ok, err, membership_required}
use himitsu.Exec.{Exec, finish}
use himitsu.Database.{Database}
use himitsu.Tenant.{with_org}

finish_split :
    {A : Type 0} (before : Database) (r : Result A × Database)
    → ((e : Error) × (finish before r ≡ (err e, before)))
      ⊎ ((a : A) × (r ≡ (ok a, (finish before r).1)) × (finish before r ≡ r))
finish_split before (ok a, after) = inr (a, refl, refl)
finish_split before (err e, after) = inl (e, refl)

-- A transaction that throws leaves every table as it was; one that returns comes from an active
-- member, counted once, and has exactly the writes and the result of its work.
pub with_org_atomic :
    {A : Type 0} (user_id : ℕ) (work : Exec Database A) (db : Database)
    → ((e : Error) × (with_org user_id work db ≡ (err e, db)))
      ⊎ ((a : A) × (with_org user_id work db ≡ work db)
          × (work db ≡ (ok a, (work db).1))
          × (count_where (λ m. m.user_id == user_id && m.active) db.memberships ≡ 1))
unfolding with_org
with_org_atomic user_id work db =
    elim (Bool-cases (count_where (λ m. m.user_id == user_id && m.active) db.memberships == 1)) [
      | inl one ↦ elim (finish_split db (work db)) [
        | inl (e, thrown) ↦ inl (e, rw one thrown)
        | inr (a, returned, same) ↦ inr (a, rw one same, ground arith, ground arith)
      ]
      | inr other ↦ inl (Error.tenancy membership_required, rw other)
    ]
