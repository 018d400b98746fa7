-- ===== src/Crypto/Keys/Table/Versions.antt =====
-- The versions of the data keys in the table: an organization's versions are distinct, and a
-- version once stored keeps its wrapped key.
use himitsu.Prelude.{
  ℕ, ◌<◌, ◌≡◌, refl, sym, inl, inr, Bool, true, false, ◌||◌, some, [], ◌∷◌, ◌++◌, any, find,
  update_where, if◌then◌else◌, Bool-cases, arith,
}
use himitsu.Text.{Text, text_eq, text_eq_iff}
use himitsu.Crypto.{DataKeyRecord}
use himitsu.Crypto.Keys.{retire}
use himitsu.Crypto.Keys.Table.{KeyTable, has_version, is_active_of, max_version}

-- The primary key `(org_id, version)`.
abbrev pub IsKeyed : KeyTable → Type 0
IsKeyed [] = Unit
IsKeyed (r ∷ rest) = (any (has_version r.org_id r.version) rest ≡ false) × IsKeyed rest

pub text_eq_refl : (s : Text) → text_eq s s ≡ true
text_eq_refl s = (text_eq_iff s s).1 refl

pub same_org : (s t : Text) → text_eq s t ≡ true → s ≡ t
same_org s t h = (text_eq_iff s t).0 h

pub has_version_self : (r : DataKeyRecord) → has_version r.org_id r.version r ≡ true
has_version_self r = ground (arith, text_eq_refl r.org_id)

has_version_sym :
    (x r : DataKeyRecord)
    → has_version r.org_id r.version x ≡ true
    → has_version x.org_id x.version r ≡ true
has_version_sym x r h =
    let equal = same_org x.org_id r.org_id (ground arith) in
    let here = (text_eq_iff r.org_id x.org_id).1 (sym equal) in ground (arith, here)

any_of_find :
    (p q : DataKeyRecord → Bool) (table : KeyTable) (r : DataKeyRecord)
    → find p table ≡ some r
    → q r ≡ true
    → any q table ≡ true
any_of_find p q [] r h k = cc
any_of_find p q (x ∷ rest) r h k = elim (Bool-cases (p x)) [
  | inl here ↦ let same : some x ≡ some r = ground (arith, here) in ground (arith, same, here, k)
  | inr other ↦ ground (arith, other, any_of_find p q rest r)
]

-- A record that a query finds is the one under its version.
pub version_of_found :
    (p : DataKeyRecord → Bool) (table : KeyTable) (r : DataKeyRecord)
    → IsKeyed table
    → find p table ≡ some r
    → find (has_version r.org_id r.version) table ≡ some r
version_of_found p [] r k h = cc
version_of_found p (x ∷ rest) r (k, ks) h = elim (Bool-cases (p x)) [
  | inl here ↦ ground (arith, here, has_version_self x)
  | inr other ↦ elim (Bool-cases (has_version r.org_id r.version x)) [
    | inl clash ↦ ground (
      arith,
      other,
      any_of_find p (has_version x.org_id x.version) rest r (ground (arith, other))
          (has_version_sym x r clash),
    )
    | inr apart ↦ ground (arith, other, apart, version_of_found p rest r ks)
  ]
]

abbrev pub retired_table : Text → ℕ → KeyTable → KeyTable
retired_table org now table = update_where (is_active_of org) (retire now) table

module _ (org : Text) (now : ℕ) (added_record : DataKeyRecord) where
  abbrev pub after : KeyTable → KeyTable
  after table = retired_table org now table ++ added_record ∷ []

  -- A version that is stored stays, with its wrapped key.
  pub version_kept :
      (o : Text) (version : ℕ) (table : KeyTable) (r : DataKeyRecord)
      → find (has_version o version) table ≡ some r
      → find (has_version o version) (after table)
        ≡ some (if is_active_of org r then retire now r else r)
  version_kept o version [] r h = cc
  version_kept o version (x ∷ rest) r h = ground (arith, version_kept o version rest r)

  -- A version above all of its organization is found in the new record.
  pub version_added :
      (table : KeyTable)
      → max_version added_record.org_id table < added_record.version
      → find (has_version added_record.org_id added_record.version) (after table)
        ≡ some added_record
  unfolding max_version
  version_added [] h = ground (arith, has_version_self added_record)
  version_added (x ∷ rest) h = ground (arith, version_added rest)

  any_after :
      (o : Text) (version : ℕ) (table : KeyTable)
      → any (has_version o version) (after table)
        ≡ (any (has_version o version) table || has_version o version added_record)
  any_after o version [] = ground arith
  any_after o version (x ∷ rest) = ground (arith, any_after o version rest)

  below_added :
      (x : DataKeyRecord)
      → (text_eq x.org_id added_record.org_id ≡ true → x.version < added_record.version)
      → has_version x.org_id x.version added_record ≡ false
  below_added x below = elim (Bool-cases (has_version x.org_id x.version added_record)) [
    | inl clash ↦ let back = has_version_sym added_record x clash in ground (arith, back, clash)
    | inr apart ↦ apart
  ]

  pub IsKeyed-after :
      (table : KeyTable)
      → max_version added_record.org_id table < added_record.version
      → IsKeyed table
      → IsKeyed (after table)
  unfolding max_version
  IsKeyed-after [] h k = (refl, tt)
  IsKeyed-after (x ∷ rest) h (k, ks) =
      let apart = below_added x (λ same. ground (arith, same)) in
      (
        elim (Bool-cases (is_active_of org x)) [
          | inl t ↦ ground (arith, t, any_after x.org_id x.version rest, apart)
          | inr t ↦ ground (arith, t, any_after x.org_id x.version rest, apart)
        ],
        IsKeyed-after rest (ground arith) ks,
      )
