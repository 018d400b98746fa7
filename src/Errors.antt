-- ===== src/Errors.antt =====
-- The errors that the packages throw, as values: each class with its `code`, and the database's.
use himitsu.Prelude.{◌≡◌, refl, ◌⊎◌, inl, inr}
use himitsu.Authz.{AuthorizationDecision}

-- `AuditError["code"]` of packages/audit/src/index.ts.
pub data AuditErrorCode : Type 0 where
  unsafe_metadata invalid_event : AuditErrorCode

-- `EnvironmentError["code"]` of packages/environments/src/index.ts.
pub data EnvironmentErrorCode : Type 0 where
  invalid_input slug_exists not_found last_environment : EnvironmentErrorCode
  secrets_require_confirmation order_mismatch recovery_expired : EnvironmentErrorCode

-- `ProjectError["code"]` of packages/projects/src/index.ts.
pub data ProjectErrorCode : Type 0 where
  invalid_input slug_exists not_found tag_not_found recovery_expired : ProjectErrorCode

-- `TenancyError["code"]`, as far as the transaction wrapper throws it.
pub data TenancyErrorCode : Type 0 where
  membership_required : TenancyErrorCode

-- `CryptoError["code"]` of packages/crypto/src/index.ts.
pub data CryptoErrorCode : Type 0 where
  invalid_configuration decryption_failed invalid_context : CryptoErrorCode

-- `SecretError["code"]` of packages/secrets/src/index.ts.
pub data SecretErrorCode : Type 0 where
  invalid_input key_convention value_too_large key_exists version_conflict : SecretErrorCode
  version_not_found tag_not_found not_found : SecretErrorCode

pub data Error : Type 0 where
  forbidden : AuthorizationDecision → Error
  audit : AuditErrorCode → Error
  environment : EnvironmentErrorCode → Error
  project : ProjectErrorCode → Error
  tenancy : TenancyErrorCode → Error
  crypto : CryptoErrorCode → Error
  secret : SecretErrorCode → Error
  -- SQLSTATE 23505 and 23514, as the driver reports them.
  unique_violation check_violation : Error
  -- A plain `Error`.
  fault : Error

pub data Result {ℓ} (A : Type ℓ) : Type ℓ where
  ok : A → Result A
  err : Error → Result A

pub Result-cases {ℓ} :
    {A : Type ℓ} (r : Result A) → ((e : Error) × (r ≡ err e)) ⊎ ((a : A) × (r ≡ ok a))
Result-cases (ok a) = inr (a, refl)
Result-cases (err e) = inl (e, refl)
