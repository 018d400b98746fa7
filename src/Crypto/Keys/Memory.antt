-- ===== src/Crypto/Keys/Memory.antt =====
-- InMemoryDataKeyStore of packages/crypto/src/index.ts.
use himitsu.Prelude.{
  ℕ, suc, Option, none, some, List, [], ◌∷◌, ◌++◌, find, update_where, ◌==◌, if◌then◌else◌,
}
use himitsu.Text.{Text, text_eq}
use himitsu.Errors.{Result, ok, err}
use himitsu.Exec.{Exec}
use himitsu.Crypto.{WrappedDataKey, DataKeyRecord}
use himitsu.Crypto.Keys.{is_active, retire, last_version, new_record, WrappedKeyFactory}

abbrev pub MemoryStore : Type 0
MemoryStore = Text → List DataKeyRecord

abbrev pub store : Text → List DataKeyRecord → MemoryStore → MemoryStore
store org_id records memory x = if text_eq org_id x then records else memory x

unfoldable pub get_active : Text → MemoryStore → Option DataKeyRecord
get_active org_id memory = find is_active (memory org_id)

unfoldable pub get_version : Text → ℕ → MemoryStore → Option DataKeyRecord
get_version org_id version memory = find (λ r. r.version == version) (memory org_id)

-- A factory that throws leaves the keys retired.
abbrev pub added :
    Text → ℕ → ℕ → Result WrappedDataKey → List DataKeyRecord → Exec MemoryStore DataKeyRecord
added org_id version now (err e) records memory = (err e, store org_id records memory)
added org_id version now (ok wrapped) records memory = (
  ok (new_record org_id version wrapped now),
  store org_id (records ++ new_record org_id version wrapped now ∷ []) memory,
)

-- `#activate`.
unfoldable pub activate : Text → ℕ → WrappedKeyFactory → Exec MemoryStore DataKeyRecord
unfolding last_version
activate org_id now factory memory =
    let version = suc (last_version (memory org_id)) in
    added org_id version now (factory version) (update_where is_active (retire now) (memory org_id))
      memory

abbrev pub existing_or :
    Option DataKeyRecord → Exec MemoryStore DataKeyRecord → Exec MemoryStore DataKeyRecord
existing_or none make memory = make memory
existing_or (some r) make memory = (ok r, memory)

unfoldable pub ensure_active : Text → ℕ → WrappedKeyFactory → Exec MemoryStore DataKeyRecord
unfolding get_active
ensure_active org_id now factory memory =
    existing_or (get_active org_id memory) (activate org_id now factory) memory

unfoldable pub rotate : Text → ℕ → WrappedKeyFactory → Exec MemoryStore DataKeyRecord
rotate org_id now factory = activate org_id now factory
