-- ===== src/Audit/Metadata/Safety.antt =====
-- What the metadata validator of packages/audit/src/index.ts lets through.
use himitsu.Prelude.{ℕ, zero, suc, ◌+◌, ◌≤◌, ◌≡◌, true, false, arith}
use himitsu.Text.{Text}
use himitsu.Audit.Metadata.{
  Value, null, array, object, Items, item, Fields, field, is_forbidden_key, count_items,
  count_fields, validate_metadata, validate_items, validate_fields,
}

-- The value `w` stands inside a value, `n` levels down.
mutual
  pub data Inside (w : Value) : ℕ → Value → Type 0 where
    here : Inside w zero w
    in_array : {n : ℕ} {items : Items} → InsideItems w n items → Inside w (suc n) (array items)
    in_object :
        {n : ℕ} {fields : Fields} → InsideFields w n fields → Inside w (suc n) (object fields)

  pub data InsideItems (w : Value) : ℕ → Items → Type 0 where
    first_item : {n : ℕ} {v : Value} {rest : Items} → Inside w n v → InsideItems w n (item v rest)
    later_item :
        {n : ℕ} {v : Value} {rest : Items} → InsideItems w n rest → InsideItems w n (item v rest)

  pub data InsideFields (w : Value) : ℕ → Fields → Type 0 where
    first_field :
        {n : ℕ} {k : Text} {v : Value} {rest : Fields}
        → Inside w n v
        → InsideFields w n (field k v rest)
    later_field :
        {n : ℕ} {k : Text} {v : Value} {rest : Fields}
        → InsideFields w n rest
        → InsideFields w n (field k v rest)

pub data HasKey (key : Text) : Fields → Type 0 where
  first_key : {v : Value} {rest : Fields} → HasKey key (field key v rest)
  later_key : {k : Text} {v : Value} {rest : Fields} → HasKey key rest → HasKey key (field k v rest)

-- At most 100 members, and no forbidden key among them.
abbrev pub IsClean : Value → Type 0
IsClean (array items) = count_items items ≤ 100
IsClean (object fields) =
    (count_fields fields ≤ 100) × ((key : Text) → HasKey key fields → is_forbidden_key key ≡ false)
IsClean _ = Unit

validate_depth : (v : Value) (d : ℕ) → validate_metadata v d ≡ true → d ≤ 8
unfolding validate_metadata
validate_depth null d h = ground arith
validate_depth _ d h = ground arith

mutual
  unfolding validate_metadata validate_items validate_fields

  validate-Inside :
      (w : Value) (n : ℕ) (v : Value) (d : ℕ)
      → validate_metadata v d ≡ true
      → Inside w n v
      → (e : ℕ) × (e ≡ n + d) × (validate_metadata w e ≡ true)
  validate-Inside w n v d h here = (d, omega arith, h)
  validate-Inside w n v d h (in_array {n = m} {items} i) =
      let (e, same, valid) = validate-InsideItems w m items (d + 1) (ground arith) i in
      (e, omega arith, valid)
  validate-Inside w n v d h (in_object {n = m} {fields} i) =
      let (e, same, valid) = validate-InsideFields w m fields (d + 1) (ground arith) i in
      (e, omega arith, valid)

  validate-InsideItems :
      (w : Value) (n : ℕ) (v : Items) (d : ℕ)
      → validate_items v d ≡ true
      → InsideItems w n v
      → (e : ℕ) × (e ≡ n + d) × (validate_metadata w e ≡ true)
  validate-InsideItems w n v d h (first_item {v = x} i) = validate-Inside w n x d (ground arith) i
  validate-InsideItems w n v d h (later_item {rest} i) =
      validate-InsideItems w n rest d (ground arith) i

  validate-InsideFields :
      (w : Value) (n : ℕ) (v : Fields) (d : ℕ)
      → validate_fields v d ≡ true
      → InsideFields w n v
      → (e : ℕ) × (e ≡ n + d) × (validate_metadata w e ≡ true)
  validate-InsideFields w n v d h (first_field {v = x} i) = validate-Inside w n x d (ground arith) i
  validate-InsideFields w n v d h (later_field {rest} i) =
      validate-InsideFields w n rest d (ground arith) i

no_forbidden_key :
    (key : Text) (fields : Fields) (d : ℕ)
    → validate_fields fields d ≡ true
    → HasKey key fields
    → is_forbidden_key key ≡ false
unfolding validate_fields
no_forbidden_key key fields d h first_key = ground arith
no_forbidden_key key fields d h (later_key {rest} k) = no_forbidden_key key rest d (ground arith) k

validate-IsClean : (w : Value) (d : ℕ) → validate_metadata w d ≡ true → IsClean w
unfolding validate_metadata
validate-IsClean (array items) d h = ground arith
validate-IsClean (object fields) d h =
    (ground arith, λ key k. no_forbidden_key key fields (d + 1) (ground arith) k)
validate-IsClean null d h = tt
validate-IsClean _ d h = tt

-- Whatever stands inside validated metadata stands at most 8 levels down, has at most 100 members,
-- and has no forbidden key.
pub validate_metadata_deep :
    (v w : Value) (n : ℕ) → validate_metadata v 0 ≡ true → Inside w n v → (n ≤ 8) × IsClean w
validate_metadata_deep v w n h i =
    let (e, same, valid) = validate-Inside w n v 0 h i in
    (omega (arith, validate_depth w e valid), validate-IsClean w e valid)
