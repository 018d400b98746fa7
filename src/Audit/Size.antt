-- ===== src/Audit/Size.antt =====
-- The number of UTF-8 bytes of `JSON.stringify(metadata)`, which metadataFor of
-- packages/audit/src/index.ts bounds.
use himitsu.Prelude.{
  ℕ, zero, suc, ◌+◌, ◌/◌, Bool, false, ◌||◌, [], ◌∷◌, ltb, ◌==◌, ◌≡◌, refl, if◌then◌else◌,
}
use himitsu.Text.{Text, between}
use himitsu.Audit.Metadata.{
  Value, null, boolean, number, string, uuid, instant, array, object, Items, nil, item, Fields, end,
  field,
}

-- The decimal digits of `n`, for fuel of at least `n`.
digits : ℕ → ℕ → ℕ
digits zero n = 1
digits (suc fuel) n = let rest = digits fuel (n / 10) in if ltb n 10 then 1 else rest + 1

is_high : ℕ → Bool
is_high c = between 0xd800 0xdbff c

is_low : ℕ → Bool
is_low c = between 0xdc00 0xdfff c

-- A code unit that is no surrogate: a short escape, a `\u` escape, or its UTF-8 bytes.
unit_bytes : ℕ → ℕ
unit_bytes c =
    if c == b'"' || c == 92 || between 8 10 c || between 12 13 c
    then 2
    else if ltb c 0x20
    then 6
    else if ltb c 0x80
    then 1
    else if ltb c 0x800
    then 2
    else 3

-- `pending` holds behind a high surrogate; a lone surrogate is escaped.
string_bytes : Bool → Text → ℕ
unfolding is_high is_low unit_bytes
string_bytes pending [] = if pending then 6 else 0
string_bytes pending (c ∷ s) =
    (if pending then (if is_low c then 4 else 6) else 0)
    + (if is_high c then 0 else if is_low c then (if pending then 0 else 6) else unit_bytes c)
    + string_bytes (is_high c) s

unfoldable mutual
  unfolding string_bytes digits

  pub value_bytes : Value → ℕ
  value_bytes null = 4
  value_bytes (boolean b) = if b then 4 else 5
  value_bytes (number n) = digits n n
  value_bytes (string s) = 2 + string_bytes false s
  value_bytes (uuid n) = 38
  value_bytes (instant n) = 26
  value_bytes (array nil) = 2
  value_bytes (array (item v rest)) = 1 + item_bytes (item v rest)
  value_bytes (object end) = 2
  value_bytes (object (field k v rest)) = 1 + field_bytes (field k v rest)

  -- Each item with the comma or bracket behind it.
  pub item_bytes : Items → ℕ
  item_bytes nil = 0
  item_bytes (item v rest) = value_bytes v + 1 + item_bytes rest

  pub field_bytes : Fields → ℕ
  field_bytes end = 0
  field_bytes (field k v rest) = 3 + string_bytes false k + value_bytes v + 1 + field_bytes rest

pub value_bytes_empty : value_bytes (object end) ≡ 2
unfolding value_bytes
value_bytes_empty = refl
