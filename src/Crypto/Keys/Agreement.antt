-- ===== src/Crypto/Keys/Agreement.antt =====
-- The stores of data keys agree: the in-memory map holds, for each organization, the rows that the
-- table has of it.
mod Tests
use himitsu.Prelude.{
  ℕ, suc, ◌≡◌, refl, ap, sym, ◌∙◌, inl, inr, Bool, true, false, ◌&&◌, Option, [], ◌∷◌, ◌++◌, filter,
  find, update_where, ◌==◌, Bool-cases, Option-cases, arith,
}
use himitsu.Text.{Text, text_eq, text_eq_iff}
use himitsu.Errors.{Error, Result, ok, err, Result-cases}
use himitsu.Exec.{finish}
use himitsu.Crypto.{DataKeyRecord}
use himitsu.Crypto.Keys.{is_active, retire, last_version, new_record, WrappedKeyFactory}
use himitsu.Crypto.Keys.Memory.{MemoryStore}
use himitsu.Crypto.Keys.Memory
use himitsu.Crypto.Keys.Table.{
  KeyTable, of_org, is_active_of, max_version, add_version, activate_in_pool,
}
use himitsu.Crypto.Keys.Table
use himitsu.Crypto.Keys.Table.Activation.{rotate_error, ensure_error}

-- What the map holds of a table.
abbrev pub view : KeyTable → MemoryStore
view table org_id = filter (of_org org_id) table

last_version-view :
    (org : Text) (table : KeyTable) → last_version (view table org) ≡ max_version org table
unfolding last_version max_version
last_version-view org [] = refl
last_version-view org (r ∷ rest) = ground (arith, last_version-view org rest)

find-view :
    (org : Text) (p : DataKeyRecord → Bool) (table : KeyTable)
    → find p (view table org) ≡ find (λ r. of_org org r && p r) table
find-view org p [] = refl
find-view org p (r ∷ rest) = ground (arith, find-view org p rest)

view-retired :
    (org x : Text) (now : ℕ) (added : DataKeyRecord) (table : KeyTable)
    → text_eq org x ≡ true
    → of_org x added ≡ true
    → view (update_where (is_active_of org) (retire now) table ++ added ∷ []) x
      ≡ update_where is_active (retire now) (view table x) ++ added ∷ []
view-retired org x now added [] same own = ground (arith, own)
view-retired org x now added (r ∷ rest) same own =
    let here = (text_eq_iff org x).0 same in
    ground (arith, view-retired org x now added rest same own, here)

view-other :
    (org x : Text) (now : ℕ) (added : DataKeyRecord) (table : KeyTable)
    → text_eq org x ≡ false
    → of_org x added ≡ false
    → view (update_where (is_active_of org) (retire now) table ++ added ∷ []) x ≡ view table x
view-other org x now added [] apart own = ground (arith, own)
view-other org x now added (r ∷ rest) apart own = elim (Bool-cases (text_eq r.org_id org)) [
  | inl same ↦
      let here = (text_eq_iff r.org_id org).0 same in
      let there : text_eq r.org_id x ≡ false = rw here apart in
      ground (arith, view-other org x now added rest apart own, there)
  | inr other ↦ ground (arith, view-other org x now added rest apart own, other)
]

module _ (org : Text) (now : ℕ) (factory : WrappedKeyFactory) (table : KeyTable) where
  -- One store's answer and rows are the other's.
  abbrev pub Agrees : Result DataKeyRecord × MemoryStore → Result DataKeyRecord × KeyTable → Type 0
  Agrees (answer, memory) (answer', table') =
      (answer ≡ answer') × ((x : Text) → memory x ≡ view table' x)

  rotate-Agrees :
      (r : DataKeyRecord)
      → (Table.rotate org now factory table).0 ≡ ok r
      → Agrees (Memory.rotate org now factory (view table)) (Table.rotate org now factory table)
  unfolding Memory.rotate Memory.activate Table.rotate add_version
  rotate-Agrees r h = elim (Result-cases (factory (suc (max_version org table)))) [
    | inl (e, bad) ↦ absurd (ground (arith, bad))
    | inr (w, made) ↦
        let new = new_record org (suc (max_version org table)) w now in
        rw (last_version-view org table, made)
          (
            refl,
            λ x. elim (Bool-cases (text_eq org x)) [
              | inl same ↦
                  let here = (text_eq_iff org x).0 same in
                  rw (same) (
                    ap
                      (λ (o : Text). update_where is_active (retire now) (view table o) ++ new ∷ [])
                      here
                    ∙ sym (view-retired org x now new table same same))
              | inr apart ↦ rw apart (sym (view-other org x now new table apart apart))
            ],
          )
  ]

  get_active-view : Memory.get_active org (view table) ≡ Table.get_active org table
  unfolding Memory.get_active Table.get_active
  get_active-view = find-view org is_active table

  ensure-Agrees :
      (r : DataKeyRecord)
      → (Table.ensure_active org now factory table).0 ≡ ok r
      → Agrees
          (Memory.ensure_active org now factory (view table))
          (Table.ensure_active org now factory table)
  unfolding Memory.ensure_active Table.ensure_active Memory.rotate Table.rotate
  ensure-Agrees r h = elim (Option-cases (Table.get_active org table)) [
    | inl missing ↦ rw (get_active-view, missing) (rotate-Agrees r (ground (arith, missing)))
    | inr (x, present) ↦ rw (get_active-view, present) (refl, λ o. refl)
  ]

  finish_same :
      (outcome : Result DataKeyRecord × KeyTable)
      → ((e : Error) → outcome.0 ≡ err e → outcome.1 ≡ table)
      → finish table outcome ≡ outcome
  finish_same (ok r, after) h = refl
  finish_same (err e, after) h = λ i. (err e, (sym (h e refl)) i)

  pool-ensure :
      activate_in_pool true org now factory table ≡ Table.ensure_active org now factory table
  unfolding activate_in_pool
  pool-ensure =
      finish_same (Table.ensure_active org now factory table) (ensure_error org now factory table)

  pool-rotate : activate_in_pool false org now factory table ≡ Table.rotate org now factory table
  unfolding activate_in_pool Table.rotate
  pool-rotate =
      finish_same (Table.rotate org now factory table) (rotate_error org now factory table)

-- The stores answer alike. Where the table activates or rotates a key, the in-memory store that
-- holds its rows returns the same record and then holds the rows of the new table, for every
-- organization; reading the active key or a version of it gives the same record; and the pooled
-- store, with its own transaction, does what the store in the caller's transaction does, failures
-- included.
pub stores_agree :
    (org : Text) (now version : ℕ) (factory : WrappedKeyFactory) (table : KeyTable)
    → ((r : DataKeyRecord)
        → (Table.ensure_active org now factory table).0 ≡ ok r
        → Agrees org now factory table
            (Memory.ensure_active org now factory (view table))
            (Table.ensure_active org now factory table))
      × ((r : DataKeyRecord)
          → (Table.rotate org now factory table).0 ≡ ok r
          → Agrees org now factory table
              (Memory.rotate org now factory (view table))
              (Table.rotate org now factory table))
      × (Memory.get_active org (view table) ≡ Table.get_active org table)
      × (Memory.get_version org version (view table) ≡ Table.get_version org version table)
      × (activate_in_pool true org now factory table ≡ Table.ensure_active org now factory table)
      × (activate_in_pool false org now factory table ≡ Table.rotate org now factory table)
unfolding Memory.get_version Table.get_version
stores_agree org now version factory table = (
  ensure-Agrees org now factory table,
  rotate-Agrees org now factory table,
  get_active-view org now factory table,
  find-view org (λ r. r.version == version) table,
  pool-ensure org now factory table,
  pool-rotate org now factory table,
)
