-- ===== src/Tenant/Tests.antt =====
-- Runs of a tenant's transaction and of the project roles, and the theorems at those runs.
use himitsu.Prelude.{◌≡◌, refl, ◌⊎◌, ◌&&◌, [], count_where, ◌==◌}
use himitsu.Errors.{Error, ok, err}
use himitsu.Exec.{Exec, write, throw, ◌>>◌}
use himitsu.Database.{Database}
use himitsu.Evaluation.Office.{office}
use himitsu.Tenant.{with_org}
use himitsu.Tenant.Atomic.{with_org_atomic}

-- A method that writes and then throws.
abbrev half_done : Exec Database (Unit {0})
half_done = write (λ db. record db { projects = [] }) >> throw Error.fault

nothing_is_left : with_org 5 half_done office ≡ (err Error.fault, office)
unfolding with_org
nothing_is_left = refl

with_org_atomic_example :
    ((e : Error) × (with_org 5 half_done office ≡ (err e, office)))
    ⊎ ((a : Unit {0}) × (with_org 5 half_done office ≡ half_done office)
        × (half_done office ≡ (ok a, (half_done office).1))
        × (count_where (λ m. m.user_id == 5 && m.active) office.memberships ≡ 1))
with_org_atomic_example = with_org_atomic 5 half_done office
