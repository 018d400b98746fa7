-- ===== src/Crypto/Keys/Table/Activation.antt =====
-- What activating a data key in the table does.
use himitsu.Prelude.{
  ℕ, suc, ◌≡◌, refl, ap, ◌∙◌, inl, inr, true, some, [], ◌∷◌, find, count_where, if◌then◌else◌,
  Bool-cases, Option-cases, arith,
}
use himitsu.Text.{Text, text_eq}
use himitsu.Errors.{Error, ok, err, Result-cases}
use himitsu.Crypto.{WrappedDataKey, DataKeyRecord}
use himitsu.Crypto.Keys.{retire, new_record, WrappedKeyFactory}
use himitsu.Crypto.Keys.Table.{
  KeyTable, is_active_of, max_version, get_active, get_version, add_version, ensure_active, rotate,
}
use himitsu.Crypto.Keys.Table.Versions.{
  IsKeyed, same_org, text_eq_refl, version_of_found, after, version_kept, version_added,
  IsKeyed-after,
}

-- Every version of a table is found in the other, with the same wrapped key.
abbrev pub KeepsKeys : KeyTable → KeyTable → Type 0
KeepsKeys table table' =
    (o : Text) (version : ℕ) (x : DataKeyRecord)
    → get_version o version table ≡ some x
    → (y : DataKeyRecord) × (get_version o version table' ≡ some y) × (y.wrapped ≡ x.wrapped)

active_retired :
    (org : Text) (now : ℕ) (r : DataKeyRecord) (table : KeyTable)
    → is_active_of org r ≡ true
    → (count_where (is_active_of org) (after org now r table) ≡ 1)
      × (find (is_active_of org) (after org now r table) ≡ some r)
active_retired org now r [] h = (ground arith, ground arith)
active_retired org now r (x ∷ rest) h = (
  ground (arith, active_retired org now r rest h),
  ground (arith, active_retired org now r rest h),
)

-- What a data key stored in the table's last version is.
pub record Activated (org : Text) (table table' : KeyTable) (r : DataKeyRecord) : Type 0 where
  pub keyed : IsKeyed table'
  pub owner : r.org_id ≡ org
  pub stored : get_version r.org_id r.version table' ≡ some r
  pub current : get_active org table' ≡ some r
  pub kept : KeepsKeys table table'

found_owner :
    (org : Text) (table : KeyTable) (x : DataKeyRecord)
    → find (is_active_of org) table ≡ some x
    → text_eq x.org_id org ≡ true
found_owner org [] x h = cc
found_owner org (y ∷ rest) x h = elim (Bool-cases (is_active_of org y)) [
  | inl here ↦ let same : some y ≡ some x = ground (arith, here) in ground (arith, same, here)
  | inr other ↦ ground (arith, other, found_owner org rest x)
]

already :
    {org : Text} (table table' : KeyTable) (x r : DataKeyRecord)
    → x ≡ r
    → table' ≡ table
    → IsKeyed table
    → get_active org table ≡ some x
    → Activated org table table' r
unfolding get_active get_version
already {org} table table' x r same tables keyed present = record {
  keyed = rw tables keyed;
  owner = rw (← same) (same_org x.org_id org (found_owner org table x present));
  stored = rw (← same, tables) (version_of_found (is_active_of org) table x keyed present);
  current = rw (← same, tables) present;
  kept = λ o version y found. (y, ap (get_version o version) tables ∙ found, refl);
}

module _ (org : Text) (now : ℕ) (factory : WrappedKeyFactory) (table : KeyTable) where
  add_version-ok :
      (table' : KeyTable) (r : DataKeyRecord)
      → add_version org now factory table ≡ (ok r, table')
      → (wrapped : WrappedDataKey) × (factory (suc (max_version org table)) ≡ ok wrapped)
        × (r ≡ new_record org (suc (max_version org table)) wrapped now)
        × (table' ≡ after org now (new_record org (suc (max_version org table)) wrapped now) table)
  unfolding add_version
  add_version-ok table' r h = elim (Result-cases (factory (suc (max_version org table)))) [
    | inl (e, bad) ↦ ground (arith, bad)
    | inr (w, made) ↦ (w, made, ground (arith, made), ground (arith, made))
  ]

  -- Where the versions of each organization are distinct, a rotation that returns stores a new
  -- version, one above the last of the organization, which is its only active key from then on; all
  -- earlier versions keep their wrapped keys.
  pub rotate_effect :
      (table' : KeyTable) (r : DataKeyRecord)
      → IsKeyed table
      → rotate org now factory table ≡ (ok r, table')
      → (r.version ≡ suc (max_version org table))
        × (count_where (is_active_of org) table' ≡ 1)
        × Activated org table table' r
  unfolding rotate get_version get_active
  rotate_effect table' r keyed h =
      let (w, made, same, tables) = add_version-ok table' r h in
      let new = new_record org (suc (max_version org table)) w now in
      let (one, first) = active_retired org now new table (ground (arith, text_eq_refl org)) in
      (
        ap (λ (x : DataKeyRecord). x.version) same,
        rw tables one,
        record {
          keyed = rw tables (IsKeyed-after org now new table (omega arith) keyed);
          owner = ap (λ (x : DataKeyRecord). x.org_id) same;
          stored = rw (same, tables) (version_added org now new table (omega arith));
          current = rw (same, tables) first;
          kept = λ o version x found. rw tables (
            (if is_active_of org x then retire now x else x),
            version_kept org now new o version table x found,
            elim (Bool-cases (is_active_of org x)) [ inl t ↦ rw t refl | inr t ↦ rw t refl ],
          );
        },
      )

  -- Asking for an active key returns the one there is and changes nothing, or stores a new one.
  pub ensure_active_effect :
      (table' : KeyTable) (r : DataKeyRecord)
      → IsKeyed table
      → ensure_active org now factory table ≡ (ok r, table')
      → Activated org table table' r
  unfolding ensure_active rotate get_version
  ensure_active_effect table' r keyed h = elim (Option-cases (get_active org table)) [
    | inl missing ↦ (rotate_effect table' r keyed (ground (arith, missing))).2
    | inr (x, present) ↦
        let same : x ≡ r = ground (arith, present) in
        let tables : table' ≡ table = ground (arith, present) in
        already table table' x r same tables keyed present
  ]

module _ (org : Text) (now : ℕ) (factory : WrappedKeyFactory) (table : KeyTable) where
  -- A factory that throws leaves the table as it was.
  pub rotate_error :
      (e : Error)
      → (rotate org now factory table).0 ≡ err e
      → (rotate org now factory table).1 ≡ table
  unfolding rotate add_version
  rotate_error e h = elim (Result-cases (factory (suc (max_version org table)))) [
    | inl (_, bad) ↦ ground (arith, bad)
    | inr (w, made) ↦ ground (arith, made)
  ]

  pub ensure_error :
      (e : Error)
      → (ensure_active org now factory table).0 ≡ err e
      → (ensure_active org now factory table).1 ≡ table
  unfolding ensure_active add_version
  ensure_error e h = elim (Option-cases (get_active org table)) [
    | inl missing ↦ elim (Result-cases (factory (suc (max_version org table)))) [
      | inl (_, bad) ↦ ground (arith, bad, missing)
      | inr (w, made) ↦ ground (arith, made, missing)
    ]
    | inr (x, present) ↦ ground (arith, present)
  ]

  -- Whatever comes of it, the versions stay distinct and keep their wrapped keys.
  pub rotate_keeps :
      IsKeyed table
      → IsKeyed (rotate org now factory table).1 × KeepsKeys table (rotate org now factory table).1
  rotate_keeps keyed = elim (Result-cases (rotate org now factory table).0) [
    | inl (e, bad) ↦ rw (rotate_error e bad) (keyed, λ o version x found. (x, found, refl))
    | inr (r, good) ↦
        let a =
          (rotate_effect org now factory table _ r keyed
            (λ i. (good i, (rotate org now factory table).1))).2 in
        (a.keyed, a.kept)
  ]

  pub ensure_active_keeps :
      IsKeyed table
      → IsKeyed (ensure_active org now factory table).1
        × KeepsKeys table (ensure_active org now factory table).1
  ensure_active_keeps keyed = elim (Result-cases (ensure_active org now factory table).0) [
    | inl (e, bad) ↦ rw (ensure_error e bad) (keyed, λ o version x found. (x, found, refl))
    | inr (r, good) ↦
        let a =
          ensure_active_effect org now factory table _ r keyed
            (λ i. (good i, (ensure_active org now factory table).1)) in
        (a.keyed, a.kept)
  ]
