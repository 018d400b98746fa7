-- ===== src/Crypto/Keys.antt =====
-- The stores of wrapped data keys of packages/crypto/src/index.ts: InMemoryDataKeyStore, a map from
-- organizations, and the table `org_encryption_keys` of PostgresDataKeyStore and
-- PostgresTransactionDataKeyStore.
pub mod Memory
pub mod Table
pub mod Agreement
use himitsu.Prelude.{ℕ, Bool, true, false, none, some, List, [], ◌∷◌, max}
use himitsu.Text.{Text}
use himitsu.Errors.{Result}
use himitsu.Crypto.{WrappedDataKey, DataKeyRecord, active, retired}

abbrev pub is_active : DataKeyRecord → Bool
is_active r = elim r.status [ active ↦ true | retired ↦ false ]

-- `status = 'retired', retired_at = now()`.
abbrev pub retire : ℕ → DataKeyRecord → DataKeyRecord
retire now r = record r { status = retired; retired_at = some now }

-- `Math.max(0, ...records.map((record) => record.version))`.
pub last_version : List DataKeyRecord → ℕ
last_version [] = 0
last_version (r ∷ rest) = max r.version (last_version rest)

abbrev pub new_record : Text → ℕ → WrappedDataKey → ℕ → DataKeyRecord
new_record org_id version wrapped now = record {
  org_id = org_id;
  version = version;
  status = active;
  wrapped = wrapped;
  created_at = now;
  retired_at = none;
}

abbrev pub WrappedKeyFactory : Type 0
WrappedKeyFactory = ℕ → Result WrappedDataKey
