-- ===== src/Secrets/Batches/Keys.antt =====
-- The keys of the items of `importBatch` of packages/secrets/src/index.ts, and the rows that are read
-- for them.
use himitsu.Prelude.{
  sym, find, filter, is_none, ◌==◌, Bool-cases, [], true, false, any, Bool, any, Bool, sym, find,
  filter, is_none, ◌==◌, Bool-cases, [], true, ℕ, ◌≡◌, refl, inl, inr, true, ◌&&◌, some, List, [],
  ◌∷◌, length, arith,
}
use himitsu.Text.{Text, elem_text, text_eq, text_eq_iff, trim, trim_start, trim_end, keep_before}
use himitsu.Errors.{ok, Result-cases}
use himitsu.Database.{Database, SecretRow}
use himitsu.Secrets.Batches.Storing.{AreNormal}
use himitsu.Secrets.{is_forbidden, is_forbidden, SetSecretInput, validate_secret_key}
use himitsu.Secrets.Store.{is_key_of}
use himitsu.Secrets.Batches.{normalize, is_live_key, Keyed}
use himitsu.Secrets.Batches.Importing.{existing_rows}
use himitsu.Secrets.Batches.Counting.{row_of}

pub length-normalize :
    (inputs : List SetSecretInput) (items : List Keyed)
    → normalize inputs ≡ ok items
    → length items ≡ length inputs
unfolding normalize
length-normalize [] items h = ground arith
length-normalize (i ∷ rest) items h =
    elim (Result-cases (validate_secret_key i.key i.allow_non_conforming_key)) [
      | inl (e, bad) ↦ ground (arith, bad)
      | inr (key, good) ↦ elim (Result-cases (normalize rest)) [
        | inl (e, bad) ↦ ground (arith, good, bad)
        | inr (ks, more) ↦ ground (arith, good, more, length-normalize rest ks more)
      ]
    ]

trim_end_fixed : (s : Text) → any is_forbidden s ≡ false → trim_end s ≡ s
unfolding trim_end keep_before is_forbidden
trim_end_fixed [] h = refl
trim_end_fixed (c ∷ []) h = ground arith
trim_end_fixed (c ∷ d ∷ s) h =
    let rest = trim_end_fixed (d ∷ s) (ground (arith, h)) in ground (arith, h, rest)

trim_fixed : (s : Text) → any is_forbidden s ≡ false → trim s ≡ s
unfolding trim trim_start is_forbidden
trim_fixed [] h = trim_end_fixed [] h
trim_fixed (c ∷ s) h = let kept = trim_end_fixed (c ∷ s) h in ground (arith, h, kept)

valid_again :
    (key : Text) (lax : Bool) (n : Text)
    → validate_secret_key key lax ≡ ok n
    → validate_secret_key n lax ≡ ok n
unfolding validate_secret_key
valid_again key lax n h =
    let clean : any is_forbidden n ≡ false = ground arith in
    let fixed = trim_fixed n clean in ground (arith, fixed, h)

pub normalize-AreNormal :
    (inputs : List SetSecretInput) (items : List Keyed)
    → normalize inputs ≡ ok items
    → AreNormal items
unfolding normalize
normalize-AreNormal [] items h = let none_at_all : items ≡ [] = ground arith in rw none_at_all tt
normalize-AreNormal (i ∷ rest) items h =
    elim (Result-cases (validate_secret_key i.key i.allow_non_conforming_key)) [
      | inl (e, bad) ↦ ground (arith, bad)
      | inr (key, good) ↦ elim (Result-cases (normalize rest)) [
        | inl (e, bad) ↦ ground (arith, good, bad)
        | inr (ks, more) ↦
            let all : items ≡ record { key = key; input = i } ∷ ks = ground (arith, good, more) in
            rw all (
              valid_again i.key i.allow_non_conforming_key key good,
              normalize-AreNormal rest ks more,
            )
      ]
    ]

find-filter :
    (f g : SecretRow → Bool) (rows : List SecretRow) (s : SecretRow)
    → find f (filter g rows) ≡ some s
    → (f s ≡ true) × (g s ≡ true)
find-filter f g [] s h = ground arith
find-filter f g (r ∷ rest) s h = elim (Bool-cases (g r)) [
  | inr out ↦ find-filter f g rest s (ground (arith, out))
  | inl kept ↦ elim (Bool-cases (f r)) [
    | inr other ↦ find-filter f g rest s (ground (arith, kept, other))
    | inl here ↦ let same : r ≡ s = ground (arith, kept, here) in rw (sym same) (here, kept)
  ]
]

pub existing_of_key :
    (project_id environment_id : ℕ) (keys : List Text) (db : Database) (k : Keyed) (row : SecretRow)
    → row_of (existing_rows project_id environment_id keys db) k ≡ some row
    → is_key_of project_id environment_id k.key row ≡ true
existing_of_key project_id environment_id keys db k row found =
    let (same, kept) = find-filter _ _ db.secrets row found in ground (arith, same, kept)

pub row_of-live :
    (project_id environment_id : ℕ) (keys : List Text) (k : Keyed) (rows : List SecretRow)
    → elem_text k.key keys ≡ true
    → row_of
        (filter
          (λ (s : SecretRow).
            s.project_id == project_id
            && s.environment_id == environment_id
            && elem_text s.key keys
            && is_none s.deleted_at)
          rows)
        k
      ≡ find (is_live_key project_id environment_id k.key) rows
row_of-live project_id environment_id keys k [] asked = refl
row_of-live project_id environment_id keys k (s ∷ rest) asked =
    let more = row_of-live project_id environment_id keys k rest asked in
    elim (Bool-cases (text_eq s.key k.key)) [
      | inl same ↦
          let here : elem_text s.key keys ≡ true = rw ((text_eq_iff s.key k.key).0 same) asked in
          ground (arith, same, here, more)
      | inr other ↦ ground (arith, other, more)
    ]
