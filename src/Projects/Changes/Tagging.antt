-- ===== src/Projects/Changes/Tagging.antt =====
-- What the tags of a project are after `#replaceTags`.
use himitsu.Prelude.{
  distinct, ℕ, ◌≤◌, ◌≡◌, ◌≢◌, refl, ap, ◌∙◌, true, false, not, List, [], ◌∷◌, ◌++◌, filter, all,
  elem, length, ◌==◌, if◌then◌else◌, arith,
}
use himitsu.Errors.{ok}
use himitsu.Database.{Database, ProjectTagRow}
use himitsu.Projects.{unique, tag_rows, tag_ids_of, replace_tags}

abbrev of_others : ℕ → List ProjectTagRow → List ProjectTagRow
of_others project_id = filter (λ t. not (t.project_id == project_id))

elem-filter :
    (n x : ℕ) (xs : List ℕ)
    → elem n (filter (λ y. not (y == x)) xs) ≡ (if n == x then false else elem n xs)
elem-filter n x [] = ground arith
elem-filter n x (y ∷ ys) = ground (arith, elem-filter n x ys)

-- The de-duplicated tags are those that were asked for.
elem-unique : (n : ℕ) (tags : List ℕ) → elem n (unique tags) ≡ elem n tags
elem-unique n [] = refl
elem-unique n (t ∷ rest) = ground (arith, elem-filter n t (unique rest), elem-unique n rest)

all_but :
    (x : ℕ) (xs : List ℕ) → distinct xs ≡ true → distinct (filter (λ y. not (y == x)) xs) ≡ true
all_but x [] h = refl
all_but x (y ∷ ys) h = ground (arith, all_but x ys, elem-filter y x ys)

-- No tag stands twice among them.
distinct-unique : (tags : List ℕ) → distinct (unique tags) ≡ true
distinct-unique [] = refl
distinct-unique (t ∷ rest) =
    ground (arith, all_but t (unique rest) (distinct-unique rest), elem-filter t t (unique rest))

no_tags :
    (project_id : ℕ) (rows : List ProjectTagRow)
    → tag_ids_of project_id (of_others project_id rows) ≡ []
unfolding tag_ids_of
no_tags project_id [] = refl
no_tags project_id (t ∷ rest) = ground (arith, no_tags project_id rest)

tag_ids_of-tag_rows :
    (project_id : ℕ) (ids : List ℕ) (rows : List ProjectTagRow)
    → tag_ids_of project_id (tag_rows project_id ids ++ of_others project_id rows) ≡ ids
unfolding tag_ids_of
tag_ids_of-tag_rows project_id [] rows = no_tags project_id rows
tag_ids_of-tag_rows project_id (t ∷ rest) rows =
    ground (arith, tag_ids_of-tag_rows project_id rest rows)

other_tags_kept :
    (project_id other : ℕ) (rows : List ProjectTagRow)
    → other ≢ project_id
    → tag_ids_of other (of_others project_id rows) ≡ tag_ids_of other rows
unfolding tag_ids_of
other_tags_kept project_id other [] h = refl
other_tags_kept project_id other (t ∷ rest) h =
    ground (arith, other_tags_kept project_id other rest h)

other_tags :
    (project_id other : ℕ) (ids : List ℕ) (rows : List ProjectTagRow)
    → other ≢ project_id
    → tag_ids_of other (tag_rows project_id ids ++ of_others project_id rows)
      ≡ tag_ids_of other rows
unfolding tag_ids_of
other_tags project_id other [] rows h = other_tags_kept project_id other rows h
other_tags project_id other (t ∷ rest) rows h =
    ground (arith, other_tags project_id other rest rows h)

-- A replacement that returns gives the project the tags asked for, each once and 50 at most, all of
-- which exist, and changes no tag of another project and no other table.
pub replace_tags_effect :
    (project_id : ℕ) (tag_ids : List ℕ) (db db' : Database)
    → replace_tags project_id tag_ids db ≡ (ok tt, db')
    → ((n : ℕ) → elem n (tag_ids_of project_id db'.project_tags) ≡ elem n tag_ids)
      × (distinct (tag_ids_of project_id db'.project_tags) ≡ true)
      × (length (tag_ids_of project_id db'.project_tags) ≤ 50)
      × (all (λ t. elem t db.tags) (tag_ids_of project_id db'.project_tags) ≡ true)
      × ((other : ℕ)
          → other ≢ project_id
          → tag_ids_of other db'.project_tags ≡ tag_ids_of other db.project_tags)
      × (db' ≡ record db { project_tags = db'.project_tags })
unfolding replace_tags
replace_tags_effect project_id tag_ids db db' h =
    let ids = unique tag_ids in
    let rows = db.project_tags in
    let small : length ids ≤ 50 = ground arith in
    let known : all (λ t. elem t db.tags) ids ≡ true = ground arith in
    let tables : db'
        ≡ record db { project_tags = tag_rows project_id ids ++ of_others project_id rows } =
      ground arith in
    let tags =
      ap (λ (b : Database). tag_ids_of project_id b.project_tags) tables
      ∙ tag_ids_of-tag_rows project_id ids rows in
    (
      λ n. rw tags (elem-unique n tag_ids),
      rw tags (distinct-unique tag_ids),
      rw tags small,
      rw tags known,
      λ other different. rw tables (other_tags project_id other ids rows different),
      rw tables refl,
    )
