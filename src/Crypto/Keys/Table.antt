-- ===== src/Crypto/Keys/Table.antt =====
-- The table of PostgresDataKeyStore and PostgresTransactionDataKeyStore of
-- packages/crypto/src/index.ts.
pub mod Versions
pub mod Activation
use himitsu.Prelude.{
  ℕ, suc, ◌+◌, Bool, ◌&&◌, Option, none, some, List, [], ◌∷◌, ◌++◌, find, update_where, max, ◌==◌,
  if◌then◌else◌,
}
use himitsu.Text.{Text, text_eq}
use himitsu.Errors.{Result, ok, err}
use himitsu.Exec.{Exec, finish}
use himitsu.Crypto.{WrappedDataKey, DataKeyRecord}
use himitsu.Crypto.Keys.{is_active, retire, new_record, WrappedKeyFactory}

abbrev pub KeyTable : Type 0
KeyTable = List DataKeyRecord

abbrev pub of_org : Text → DataKeyRecord → Bool
of_org org_id r = text_eq r.org_id org_id

abbrev pub has_version : Text → ℕ → DataKeyRecord → Bool
has_version org_id version r = text_eq r.org_id org_id && r.version == version

abbrev pub is_active_of : Text → DataKeyRecord → Bool
is_active_of org_id r = text_eq r.org_id org_id && is_active r

-- `SELECT COALESCE(max(version), 0) FROM org_encryption_keys WHERE org_id = $1`.
unfoldable pub max_version : Text → KeyTable → ℕ
max_version org_id [] = 0
max_version org_id (r ∷ rest) =
    let others = max_version org_id rest in
    if text_eq r.org_id org_id then max r.version others else others

unfoldable pub get_active : Text → KeyTable → Option DataKeyRecord
get_active org_id table = find (is_active_of org_id) table

unfoldable pub get_version : Text → ℕ → KeyTable → Option DataKeyRecord
get_version org_id version table = find (has_version org_id version) table

abbrev added : Text → ℕ → ℕ → Result WrappedDataKey → Exec KeyTable DataKeyRecord
added org_id version now (err e) table = (err e, table)
added org_id version now (ok wrapped) table = (
  ok (new_record org_id version wrapped now),
  update_where (is_active_of org_id) (retire now) table
      ++ new_record org_id version wrapped now ∷ [],
)

abbrev existing_or :
    Option DataKeyRecord → Exec KeyTable DataKeyRecord → Exec KeyTable DataKeyRecord
existing_or none make table = make table
existing_or (some r) make table = (ok r, table)

-- The statements of `#activate` behind the test for an existing key.
unfoldable pub add_version : Text → ℕ → WrappedKeyFactory → Exec KeyTable DataKeyRecord
unfolding max_version
add_version org_id now factory table =
    let version = suc (max_version org_id table) in added org_id version now (factory version) table

unfoldable pub ensure_active : Text → ℕ → WrappedKeyFactory → Exec KeyTable DataKeyRecord
unfolding get_active
ensure_active org_id now factory table =
    existing_or (get_active org_id table) (add_version org_id now factory) table

unfoldable pub rotate : Text → ℕ → WrappedKeyFactory → Exec KeyTable DataKeyRecord
rotate org_id now factory = add_version org_id now factory

-- PostgresDataKeyStore.#activate, in a transaction of its own.
unfoldable pub activate_in_pool : Bool → Text → ℕ → WrappedKeyFactory → Exec KeyTable DataKeyRecord
activate_in_pool use_existing org_id now factory table =
    let existing = ensure_active org_id now factory table in
    let anew = add_version org_id now factory table in
    finish table (if use_existing then existing else anew)
