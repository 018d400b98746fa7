-- ===== src/Secrets/Export/Nested.antt =====
-- The objects that `serializeSecretExport` of packages/secrets/src/index.ts builds and prints as JSON.
use himitsu.Prelude.{
  ℕ, suc, zero, ◌+◌, ◌-◌, ◌*◌, Bool, true, false, ◌&&◌, ◌||◌, not, Option, none, some, List, [],
  ◌∷◌, ◌++◌, any, length, is_some, ltb, leb, ◌==◌, if◌then◌else◌,
}
use himitsu.Text.{Text, text_eq, codes, between}
use himitsu.Errors.{invalid_input, Result, ok, err}
use himitsu.Imports.{starts_with}
use himitsu.Secrets.{failed}
use himitsu.Secrets.Export.{Entry, json_quote}

-- An object of `JSON.stringify`, its members in the order of its own keys.
mutual
  pub data Node : Type 0 where
    leaf : Text → Node
    branch : Members → Node

  pub data Members : Type 0 where
    no_members : Members
    member : Text → Node → Members → Members

abbrev digits_value : ℕ → Text → Option ℕ
digits_value n [] = some n
digits_value n (c ∷ s) =
    let rest = digits_value (n * 10 + (c - b'0')) s in if between b'0' b'9' c then rest else none

-- The number of a key that is an array index, in the one way that it is written.
unfoldable pub array_index : Text → Option ℕ
array_index [] = none
array_index (c ∷ s) =
    if c == b'0' && not (length s == 0) || leb 11 (length (c ∷ s))
    then none
    else elim (digits_value 0 (c ∷ s)) [
      | none ↦ none
      | some n ↦ if ltb n 0xffffffff then some n else none
    ]

-- Array indices come first, in ascending order; other keys in the order of their creation.
abbrev comes_before : Option ℕ → Option ℕ → Bool
comes_before (some a) (some b) = ltb a b
comes_before (some a) none = true
comes_before none b = false

unfoldable pub placed : Text → Node → Members → Members
placed key n no_members = member key n no_members
placed key n (member k m rest) =
    let later = placed key n rest in
    if comes_before (array_index key) (array_index k)
    then member key n (member k m rest)
    else member k m later

unfoldable pub member_of : Text → Members → Option Node
member_of key no_members = none
member_of key (member k n rest) = if text_eq k key then some n else member_of key rest

unfoldable pub with_member : Text → Node → Members → Members
with_member key n no_members = no_members
with_member key n (member k m rest) =
    let later = with_member key n rest in
    if text_eq k key then member k n rest else member k m later

abbrev push : ℕ → List Text → List Text
push c [] = (c ∷ []) ∷ []
push c (t ∷ ts) = (c ∷ t) ∷ ts

-- `key.split(delimiter)`; the number counts the rest of a delimiter that was met.
unfoldable pub split_on : Text → ℕ → Text → List Text
split_on delimiter n [] = [] ∷ []
split_on delimiter (suc n) (c ∷ s) = split_on delimiter n s
split_on delimiter zero (c ∷ s) =
    let cut = split_on delimiter (length delimiter - 1) s in
    let on = split_on delimiter zero s in
    if starts_with delimiter (c ∷ s) then [] ∷ cut else push c on

abbrev as_branch : Result Members → Result Node
as_branch (err e) = err e
as_branch (ok ms) = ok (branch ms)

abbrev place_in : Text → Members → Result Members → Result Members
place_in key ms (err e) = err e
place_in key ms (ok child) = ok (placed key (branch child) ms)

abbrev replace_in : Text → Members → Result Members → Result Members
replace_in key ms (err e) = err e
replace_in key ms (ok child) = ok (with_member key (branch child) ms)

-- The members of a branch; nothing for a value.
abbrev children : Option Node → Option Members
children none = some no_members
children (some (leaf v)) = none
children (some (branch ms)) = some ms

-- The loop over the segments of one key.
unfoldable pub insert_path : List Text → Text → Members → Result Members
insert_path [] value ms = ok ms
insert_path (segment ∷ []) value ms =
    if is_some (member_of segment ms)
    then err (failed invalid_input)
    else ok (placed segment (leaf value) ms)
insert_path (segment ∷ next ∷ path) value ms = elim (member_of segment ms) [
  | none ↦ place_in segment ms (insert_path (next ∷ path) value no_members)
  | some n ↦ elim n [
    | leaf v ↦ err (failed invalid_input)
    | branch child ↦ replace_in segment ms (insert_path (next ∷ path) value child)
  ]
]

abbrev pub insert_key : Text → Entry → Members → Result Members
insert_key delimiter e ms =
    if any (λ t. length t == 0) (split_on delimiter 0 e.key)
    then err (failed invalid_input)
    else insert_path (split_on delimiter 0 e.key) e.value ms

abbrev and_then : Result Members → (Members → Result Members) → Result Members
and_then (err e) f = err e
and_then (ok ms) f = f ms

-- The loop over the entries.
unfoldable pub nested_members : Text → List Entry → Members → Result Members
nested_members delimiter [] ms = ok ms
nested_members delimiter (e ∷ rest) ms =
    and_then (insert_key delimiter e ms) (λ m. nested_members delimiter rest m)

-- `Object.fromEntries(entries)`, whose keys differ.
unfoldable pub flat_members : List Entry → Members → Members
flat_members [] ms = ms
flat_members (e ∷ rest) ms = flat_members rest (placed e.key (leaf e.value) ms)

abbrev spaces : ℕ → Text
spaces zero = []
spaces (suc n) = b' ' ∷ spaces n

-- Behind the members before it.
abbrev and_members : Members → Text → Text
and_members no_members t = []
and_members (member k n rest) t = b',' ∷ 10 ∷ t

abbrev in_braces : ℕ → Members → Text → Text
in_braces indent no_members t = codes "{}"
in_braces indent (member k n rest) t = b'{' ∷ 10 ∷ (t ++ 10 ∷ (spaces indent ++ b'}' ∷ []))

-- `JSON.stringify(node, null, 2)`, at a depth.
unfoldable mutual
  unfolding json_quote

  pub print_node : ℕ → Node → Text
  print_node indent (leaf v) = json_quote v
  print_node indent (branch ms) = in_braces indent ms (print_members (indent + 2) ms)

  pub print_members : ℕ → Members → Text
  print_members indent no_members = []
  print_members indent (member k n rest) =
      spaces indent
      ++ (json_quote k
          ++ b':' ∷ b' ' ∷ (print_node indent n ++ and_members rest (print_members indent rest)))

abbrev pub printed : Result Members → Result Text
printed (err e) = err e
printed (ok ms) = ok (print_node 0 (branch ms) ++ 10 ∷ [])
