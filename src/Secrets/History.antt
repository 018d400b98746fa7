-- ===== src/Secrets/History.antt =====
-- The abstract view of a secret of packages/secrets/src/index.ts: the list of its values, the newest
-- first; and how the tables show it.
pub mod Commands
pub mod Effects
pub mod Pushing
pub mod RollingBack
pub mod Reading
pub mod Removal
pub mod Keeping
pub mod Runs
pub mod Rows
mod Tests
pub mod Creation
use himitsu.Prelude.{
  ℕ, suc, ◌<◌, ◌≤◌, subst, ◌≡◌, ◌≢◌, refl, ap, sym, ◌∙◌, inl, inr, Bool, true, false, Option, none,
  some, List, [], ◌∷◌, find, length, update_where, ◌==◌, if◌then◌else◌, Bool-cases, arith,
}
use himitsu.Text.{Text}
use himitsu.Database.{Database, SecretRow}
use himitsu.Crypto.{Cipher, LocalMasterKey}
use himitsu.Secrets.Utf8.{utf8}
use himitsu.Secrets.Utf8.RoundTrip.{IsText}
use himitsu.Secrets.Store.{is_live}
use himitsu.Secrets.Writing.{at_version}
use himitsu.Secrets.Sealing.{Holds, Preserves, Holds-kept}

-- The value of a version.
abbrev pub value_of : ℕ → List Text → Option Text
value_of version [] = none
value_of version (t ∷ ts) = if version == suc (length ts) then some t else value_of version ts

pub value_of-some :
    (ts : List Text) (version : ℕ)
    → 0 < version
    → version ≤ length ts
    → (t : Text) × (value_of version ts ≡ some t)
value_of-some [] version low high = let bad : ◌≡◌ {A = ℕ} 0 1 = omega (arith, low, high) in cc
value_of-some (t ∷ ts) version low high = elim (Bool-cases (version == suc (length ts))) [
  | inl here ↦ (t, rw here refl)
  | inr other ↦
      let (u, found) = value_of-some ts version low (ground (arith, other)) in (u, rw other found)
]

pub found_after :
    (id : ℕ) (f : SecretRow → SecretRow) (rows : List SecretRow) (s : SecretRow)
    → ((r : SecretRow) → is_live id (f r) ≡ is_live id r)
    → find (is_live id) rows ≡ some s
    → find (is_live id) (update_where (is_live id) f rows) ≡ some (f s)
found_after id f [] s same h = cc
found_after id f (r ∷ rest) s same h = elim (Bool-cases (is_live id r)) [
  | inl here ↦ let kept = same r in ground (arith, here)
  | inr other ↦ ground (arith, other, found_after id f rest s same (ground (arith, other)))
]

pub found_elsewhere :
    (id other : ℕ) (f : SecretRow → SecretRow) (rows : List SecretRow)
    → other ≢ id
    → ((r : SecretRow) → is_live other (f r) ≡ is_live other r)
    → find (is_live other) (update_where (is_live id) f rows) ≡ find (is_live other) rows
found_elsewhere id other f [] different same = refl
found_elsewhere id other f (r ∷ rest) different same =
    let kept = same r in ground (arith, found_elsewhere id other f rest different same)

module _ (cipher : Cipher) (master : LocalMasterKey) where
  -- The versions of a secret hold these values, the newest last in number and first in the list.
  abbrev pub Texts : Database → SecretRow → List Text → Type 0
  Texts db s [] = Unit
  Texts db s (t ∷ ts) =
      IsText t × Holds cipher master db s (suc (length ts)) (utf8 t) × Texts db s ts

  -- A secret that is not deleted, with its values.
  pub record HasHistory (db : Database) (secret_id : ℕ) (ts : List Text) : Type 0 where
    pub row : SecretRow
    pub found : find (is_live secret_id) db.secrets ≡ some row
    pub counted : row.current_version ≡ length ts
    pub texts : Texts db row ts

  pub Texts-kept :
      (db db' : Database) (s : SecretRow) (ts : List Text)
      → Preserves cipher master db db'
      → Texts db s ts
      → Texts db' s ts
  Texts-kept db db' s [] p h = tt
  Texts-kept db db' s (t ∷ ts) p (good, holds, rest) = (
    good,
    Holds-kept cipher master db db' s (suc (length ts)) (utf8 t) p holds,
    Texts-kept db db' s ts p rest,
  )

  pub Texts-at_version :
      (db : Database) (s : SecretRow) (ts : List Text) (version : ℕ) (notes : Option Text)
      → Texts db s ts
      → Texts db (at_version version notes s) ts
  Texts-at_version db s [] version notes h = tt
  Texts-at_version db s (t ∷ ts) version notes (good, holds, rest) =
      (good, holds, Texts-at_version db s ts version notes rest)

  -- A version within the history holds its value.
  pub value_of-Holds :
      (db : Database) (s : SecretRow) (ts : List Text) (version : ℕ) (t : Text)
      → Texts db s ts
      → value_of version ts ≡ some t
      → IsText t × Holds cipher master db s version (utf8 t)
  value_of-Holds db s [] version t h found = cc
  value_of-Holds db s (t1 ∷ ts) version t (good, holds, rest) found =
      elim (Bool-cases (version == suc (length ts))) [
        | inl here ↦
            let same : t1 ≡ t = ground (arith, here) in
            let at : suc (length ts) ≡ version = ground (arith, here) in
            subst (λ (u : Text). IsText u × Holds cipher master db s version (utf8 u)) same
              (subst (λ (n : ℕ). IsText t1 × Holds cipher master db s n (utf8 t1)) at (good, holds))
        | inr other ↦ value_of-Holds db s ts version t rest (ground (arith, other))
      ]
