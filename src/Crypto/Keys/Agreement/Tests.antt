-- ===== src/Crypto/Keys/Agreement/Tests.antt =====
-- The stores at one table, and the theorem there.
use himitsu.Prelude.{◌≡◌, refl, true, false, [], ◌∷◌}
use himitsu.Text.{text_eq, codes}
use himitsu.Errors.{ok}
use himitsu.Crypto.{WrappedDataKey, DataKeyRecord}
use himitsu.Crypto.Keys.{new_record}
use himitsu.Crypto.Keys.Memory
use himitsu.Crypto.Keys.Table.{KeyTable, max_version, add_version, activate_in_pool}
use himitsu.Crypto.Keys.Table
use himitsu.Crypto.Keys.Agreement.{view, Agrees, stores_agree}

abbrev wrapped : WrappedDataKey
wrapped = record { kek_id = codes "kek"; ciphertext = 1 ∷ []; nonce = 2 ∷ []; auth_tag = 3 ∷ [] }

abbrev two_organizations : KeyTable
two_organizations = new_record (codes "a") 1 wrapped 10 ∷ new_record (codes "b") 4 wrapped 20 ∷ []

second_version :
    (r : DataKeyRecord) × ((Table.rotate (codes "a") 30 (λ _. ok wrapped) two_organizations).0
      ≡ ok r)
    × (r.version ≡ 2)
unfolding text_eq Table.rotate add_version max_version
second_version = (_, refl, refl)

stores_agree_example :
    ((r : DataKeyRecord)
      → (Table.ensure_active (codes "a") 30 (λ _. ok wrapped) two_organizations).0 ≡ ok r
      → Agrees
          (codes "a")
          30
          (λ _. ok wrapped)
          two_organizations
          (Memory.ensure_active (codes "a") 30 (λ _. ok wrapped) (view two_organizations))
          (Table.ensure_active (codes "a") 30 (λ _. ok wrapped) two_organizations))
    × ((r : DataKeyRecord)
        → (Table.rotate (codes "a") 30 (λ _. ok wrapped) two_organizations).0 ≡ ok r
        → Agrees
            (codes "a")
            30
            (λ _. ok wrapped)
            two_organizations
            (Memory.rotate (codes "a") 30 (λ _. ok wrapped) (view two_organizations))
            (Table.rotate (codes "a") 30 (λ _. ok wrapped) two_organizations))
    × (Memory.get_active (codes "a") (view two_organizations)
        ≡ Table.get_active (codes "a") two_organizations)
    × (Memory.get_version (codes "a") 1 (view two_organizations)
        ≡ Table.get_version (codes "a") 1 two_organizations)
    × (activate_in_pool true (codes "a") 30 (λ _. ok wrapped) two_organizations
        ≡ Table.ensure_active (codes "a") 30 (λ _. ok wrapped) two_organizations)
    × (activate_in_pool false (codes "a") 30 (λ _. ok wrapped) two_organizations
        ≡ Table.rotate (codes "a") 30 (λ _. ok wrapped) two_organizations)
stores_agree_example = stores_agree (codes "a") 30 1 (λ _. ok wrapped) two_organizations
