-- ===== src/Secrets/Batches/Counting.antt =====
-- What the loop of `importBatch` of packages/secrets/src/index.ts creates, updates and skips.
use himitsu.Prelude.{
  sym, any, if-true, Option-cases, is_none, not, or_else, ℕ, suc, ◌≡◌, refl, ap, ◌∙◌, inl, inr,
  Bool, true, false, ◌&&◌, Option, some, none, List, [], ◌∷◌, ◌++◌, find, length, Bool-cases, arith,
  ◌+◌, count_where, length-append, is_some,
}
use himitsu.Text.{Text, codes, text_eq, elem_text}
use himitsu.Errors.{ok}
use himitsu.Exec.{pure, bind-ok}
use himitsu.Database.{Database, SecretRow}
use himitsu.Crypto.{Cipher, LocalMasterKey}
use himitsu.Secrets.{Draws, SecretMetadata}
use himitsu.Secrets.Batches.{Keyed, set_one}
use himitsu.Secrets.Batches.Importing.{
  skip, overwrite, merge, counted, format_name, included, Progress, import_one, import_all,
  SecretImportStrategy, SecretImportFormat,
}

-- The row that was read for an item's key.
abbrev pub row_of : List SecretRow → Keyed → Option SecretRow
row_of existing k = find (λ (s : SecretRow). text_eq s.key k.key) existing

-- What a strategy promises: `overwrite` takes every item, `skip` those whose key has no row, and
-- `merge` those whose key was selected.
abbrev pub is_chosen : SecretImportStrategy → List Text → List SecretRow → Keyed → Bool
is_chosen skip selected existing k = not (is_some (row_of existing k))
is_chosen overwrite selected existing k = true
is_chosen merge selected existing k = any (λ key. text_eq key k.key) selected

pub chosen_is_included :
    (strategy : SecretImportStrategy) (selected : List Text) (existing : List SecretRow) (k : Keyed)
    → included strategy selected k.key (row_of existing k) ≡ is_chosen strategy selected existing k
unfolding included
chosen_is_included skip selected existing k = elim (Option-cases (row_of existing k)) [
  | inl missing ↦ ground (arith, missing)
  | inr (s, found) ↦ ground (arith, found)
]
chosen_is_included overwrite selected existing k = refl
chosen_is_included merge selected existing k = selected_texts selected
  where
    selected_texts : (keys : List Text) → elem_text k.key keys ≡ any (λ key. text_eq key k.key) keys
    selected_texts [] = refl
    selected_texts (x ∷ rest) = ground (arith, selected_texts rest)

module _ (strategy : SecretImportStrategy) (selected : List Text) (existing : List SecretRow) where
  abbrev pub is_created : Keyed → Bool
  is_created k = is_chosen strategy selected existing k && is_none (row_of existing k)

  abbrev pub is_updated : Keyed → Bool
  is_updated k = is_chosen strategy selected existing k && is_some (row_of existing k)

  abbrev pub is_skipped : Keyed → Bool
  is_skipped k = not (is_chosen strategy selected existing k)

  pub all_counted :
      (items : List Keyed)
      → count_where is_created items + count_where is_updated items + count_where is_skipped items
        ≡ length items
  all_counted [] = refl
  all_counted (k ∷ rest) = elim (Option-cases (row_of existing k)) [
    | inl missing ↦ ground (arith, missing, all_counted rest)
    | inr (s, found) ↦ ground (arith, found, all_counted rest)
  ]

  -- The counts of the loop, from a state to another.
  pub record Counts (items : List Keyed) (p q : Progress) : Type 0 where
    pub created : q.created ≡ p.created + count_where is_created items
    pub updated : q.updated ≡ p.updated + count_where is_updated items
    pub skipped : q.skipped ≡ p.skipped + count_where is_skipped items
    pub written :
        length q.results
        ≡ length p.results + (count_where is_created items + count_where is_updated items)

  written_one :
      (k : Keyed) (p q : Progress) (m : SecretMetadata)
      → is_chosen strategy selected existing k ≡ true
      → q ≡ counted p (row_of existing k) m
      → Counts (k ∷ []) p q
  written_one k p q m chosen same =
      let size = length-append p.results (m ∷ []) in
      elim (Option-cases (row_of existing k)) [
        | inl missing ↦
            let made : q ≡ counted p none m =
              same ∙ ap (λ (r : Option SecretRow). counted p r m) missing in
            record {
              created = ground (arith, chosen, missing, made);
              updated = ground (arith, chosen, missing, made);
              skipped = ground (arith, chosen, missing, made);
              written = ground (arith, chosen, missing, made, size);
            }
        | inr (s, found) ↦
            let made : q ≡ counted p (some s) m =
              same ∙ ap (λ (r : Option SecretRow). counted p r m) found in
            record {
              created = ground (arith, chosen, found, made);
              updated = ground (arith, chosen, found, made);
              skipped = ground (arith, chosen, found, made);
              written = ground (arith, chosen, found, made, size);
            }
      ]

  module _ (actor : ℕ) (cipher : Cipher) (master : LocalMasterKey) (project_id environment_id : ℕ)
      (format : SecretImportFormat) where
    import_one-Counts :
        (draws : Draws) (k : Keyed) (p q : Progress) (db db' : Database)
        → import_one actor cipher master project_id environment_id draws strategy selected format k
            p
            (row_of existing k)
            db
          ≡ (ok q, db')
        → Counts (k ∷ []) p q
    unfolding import_one
    import_one-Counts draws k p q db db' h =
        let rule = chosen_is_included strategy selected existing k in
        elim (Bool-cases (included strategy selected k.key (row_of existing k))) [
          | inr out ↦
              let unchosen : is_chosen strategy selected existing k ≡ false = sym rule ∙ out in
              let same : q ≡ record p { skipped = suc p.skipped } = ground (arith, out) in
              record {
                created = ground (arith, unchosen, same);
                updated = ground (arith, unchosen, same);
                skipped = ground (arith, unchosen, same);
                written = ground (arith, unchosen, same);
              }
          | inl chosen ↦
              let note =
                some (or_else k.input.change_note (format_name format ++ codes " import")) in
              let one =
                set_one actor cipher master project_id environment_id draws k.key k.input note false
                  (row_of existing k) in
              let (m, db1, h1, h2) =
                bind-ok one (λ m. pure (counted p (row_of existing k) m)) db db' q
                  (if-true (included strategy selected k.key (row_of existing k)) _ _ (ok q, db')
                    chosen h) in
              written_one k p q m (sym rule ∙ chosen) (ground (arith, h2))
        ]

    pub import_all-Counts :
        (draws : ℕ → Draws) (items : List Keyed) (index : ℕ) (p q : Progress) (db db' : Database)
        → import_all actor cipher master project_id environment_id draws strategy selected format
            existing index items p db
          ≡ (ok q, db')
        → Counts items p q
    unfolding import_all
    import_all-Counts draws [] index p q db db' h =
        let same : q ≡ p = ground arith in
        record {
          created = ground (arith, same);
          updated = ground (arith, same);
          skipped = ground (arith, same);
          written = ground (arith, same);
        }
    import_all-Counts draws (k ∷ rest) index p q db db' h =
        let (p1, db1, h1, h2) =
          bind-ok
            (import_one actor cipher master project_id environment_id (draws index) strategy
              selected format k p (row_of existing k))
            _ db db' q h in
        let one = import_one-Counts (draws index) k p p1 db db1 h1 in
        let more = import_all-Counts draws rest (suc index) p1 q db1 db' h2 in
        record {
          created = omega (arith, one.created, more.created);
          updated = omega (arith, one.updated, more.updated);
          skipped = omega (arith, one.skipped, more.skipped);
          written = omega (arith, one.written, more.written);
        }
