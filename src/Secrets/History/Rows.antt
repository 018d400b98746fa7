-- ===== src/Secrets/History/Rows.antt =====
-- Statements on the rows of secrets, and what they make of the histories.
use himitsu.Prelude.{
  ◌||◌, any, ℕ, ◌≡◌, ◌≢◌, refl, ap, sym, ◌∙◌, subst, inl, inr, false, some, List, [], ◌∷◌, find,
  length, ◌==◌, Bool-cases, arith, update_where,
}
use himitsu.Text.{Text}
use himitsu.Errors.{ok}
use himitsu.Database.{Database, SecretRow}
use himitsu.Crypto.{Cipher, LocalMasterKey}
use himitsu.Crypto.Keys.Table.Versions.{IsKeyed}
use himitsu.Secrets.Store.{is_live, insert_secret, is_key_of}
use himitsu.Secrets.Sealing.{Preserves}
use himitsu.Secrets.History.{Texts, HasHistory, Texts-kept}
use himitsu.Secrets.Writing.{undelete}

pub insert_secret-ok :
    (row : SecretRow) (db db' : Database)
    → insert_secret row db ≡ (ok tt, db')
    → (any
          (λ (s : SecretRow).
            s.id == row.id || is_key_of row.project_id row.environment_id row.key s)
          db.secrets
        ≡ false)
      × (db' ≡ record db { secrets = row ∷ db.secrets })
unfolding insert_secret
insert_secret-ok row db db' h = (ground arith, ground arith)

pub undeleted_here :
    (rows : List SecretRow) (r : SecretRow)
    → find (λ (s : SecretRow). s.id == r.id) rows ≡ some r
    → find (is_live r.id) (update_where (λ (s : SecretRow). s.id == r.id) undelete rows)
      ≡ some (undelete r)
undeleted_here [] r h = cc
undeleted_here (s ∷ rest) r h = elim (Bool-cases (s.id == r.id)) [
  | inl here ↦
      let same : s ≡ r = ground (arith, here) in
      rw here (rw here (ap (λ (x : SecretRow). some (undelete x)) same))
  | inr other ↦ ground (arith, other, undeleted_here rest r (ground (arith, other)))
]

pub undeleted_elsewhere :
    (id other : ℕ) (rows : List SecretRow)
    → other ≢ id
    → find (is_live other) (update_where (λ (s : SecretRow). s.id == id) undelete rows)
      ≡ find (is_live other) rows
undeleted_elsewhere id other [] different = refl
undeleted_elsewhere id other (s ∷ rest) different =
    ground (arith, undeleted_elsewhere id other rest different)

module _ (cipher : Cipher) (master : LocalMasterKey) where
  -- A statement on the rows of secrets loses no version and no key.
  pub rows_preserved :
      (rows : List SecretRow) (db db' : Database)
      → db' ≡ record db { secrets = rows }
      → IsKeyed db.encryption_keys
      → Preserves cipher master db db'
  rows_preserved rows db db' e keyed =
      subst (λ (b : Database). Preserves cipher master db b) (sym e)
        (record {
          org = refl;
          keyed = keyed;
          keys = λ o version x found. (x, found, refl);
          versions = λ i version v found. found;
        })

  -- What a statement on the rows makes of one history.
  unfoldable pub shown_by :
      (rows : List SecretRow) (db db' : Database) (id : ℕ) (row : SecretRow) (ts : List Text)
      → db' ≡ record db { secrets = rows }
      → IsKeyed db.encryption_keys
      → find (is_live id) rows ≡ some row
      → row.current_version ≡ length ts
      → Texts cipher master db row ts
      → HasHistory cipher master db' id ts
  shown_by rows db db' id row ts e keyed found counted texts = record {
    row = row;
    found = ap (λ (b : Database). find (is_live id) b.secrets) e ∙ found;
    counted = counted;
    texts = Texts-kept cipher master db db' row ts (rows_preserved rows db db' e keyed) texts;
  }

  pub Texts-undelete :
      (db : Database) (s : SecretRow) (ts : List Text)
      → Texts cipher master db s ts
      → Texts cipher master db (undelete s) ts
  Texts-undelete db s [] h = tt
  Texts-undelete db s (t ∷ ts) (good, holds, rest) = (good, holds, Texts-undelete db s ts rest)
