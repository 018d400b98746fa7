-- ===== src/Exec.antt =====
-- A service method inside a database transaction: it returns or throws, and its writes so far stand
-- in the transaction's state in either case, until the wrapper commits or rolls back.
use himitsu.Prelude.{◌≡◌, refl, Bool, true, false, Option, none, some, ap, sym, ◌∙◌}
use himitsu.Errors.{Error, unique_violation, Result, ok, err}

abbrev pub Exec {ℓ} : Type ℓ → Type ℓ → Type ℓ
Exec S A = S → Result A × S

module _ {ℓ} {S A : Type ℓ} where
  abbrev pub pure : A → Exec S A
  pure a s = (ok a, s)

  abbrev pub throw : Error → Exec S A
  throw e s = (err e, s)

  -- A query that reads: it computes from the state, may throw, and writes nothing.
  abbrev pub query : (S → Result A) → Exec S A
  query read s = (read s, s)

module _ {ℓ} {S : Type ℓ} where
  -- A statement that writes.
  abbrev pub write : (S → S) → Exec S (Unit {ℓ})
  write f s = (ok tt, f s)

  abbrev pub guard : Bool → Error → Exec S (Unit {ℓ})
  guard true e s = (ok tt, s)
  guard false e s = (err e, s)

module _ {ℓ} {S A B : Type ℓ} where
  abbrev pub continue : Result A → (A → Exec S B) → Exec S B
  continue (ok a) f s = f a s
  continue (err e) f s = (err e, s)

  infixl 10 ◌>>=◌ ◌>>◌
  abbrev pub ◌>>=◌ : Exec S A → (A → Exec S B) → Exec S B
  ◌>>=◌ m f s = continue (m s).0 f (m s).1

  abbrev pub ◌>>◌ : Exec S A → Exec S B → Exec S B
  m >> n = m >>= λ _. n

-- `value ?? throw error`.
abbrev pub required {ℓ} : {A : Type ℓ} → Option A → Error → Result A
required none e = err e
required (some a) e = ok a

pub required-ok {ℓ} :
    {A : Type ℓ} (found : Option A) (e : Error) (a : A) → required found e ≡ ok a → found ≡ some a
required-ok none e a h = cc
required-ok (some b) e a h = cc

-- `input.field === undefined ? before.field : validate(input.field)`.
abbrev pub kept_or {ℓ} : {A B : Type ℓ} → (A → Result B) → B → Option A → Result B
kept_or validate before none = ok before
kept_or validate before (some value) = validate value

-- `catch (error) { if (error.code === "23505") throw replacement; throw error; }`.
abbrev pub rename_unique {ℓ} : {A : Type ℓ} → Error → Result A → Result A
rename_unique replacement (err unique_violation) = err replacement
rename_unique replacement (err e) = err e
rename_unique replacement (ok a) = ok a

abbrev pub catch_unique {ℓ} : {S A : Type ℓ} → Error → Exec S A → Exec S A
catch_unique replacement m s = (rename_unique replacement (m s).0, (m s).1)

pub rename_unique-eq-ok {ℓ} :
    {A : Type ℓ} (e : Error) (r : Result A) (a : A) → rename_unique e r ≡ ok a → r ≡ ok a
rename_unique-eq-ok e (ok b) a h = h
rename_unique-eq-ok e (err unique_violation) a h = cc
rename_unique-eq-ok e (err _) a h = cc

-- What a `try` block with such a handler returns, its body returned.
pub catch_unique-eq-ok {ℓ} :
    {S A : Type ℓ} (e : Error) (m : Exec S A) (s s' : S) (a : A)
    → catch_unique e m s ≡ (ok a, s')
    → m s ≡ (ok a, s')
catch_unique-eq-ok {S} {A} e m s s' a h =
    λ i. (rename_unique-eq-ok e (m s).0 a (ap (λ (r : Result A × S). r.0) h) i, (h i).1)

continue-ok {ℓ} :
    {S A B : Type ℓ} (r : Result A) (f : A → Exec S B) (s s' : S) (b : B)
    → continue r f s ≡ (ok b, s')
    → (a : A) × (r ≡ ok a) × (f a s ≡ (ok b, s'))
continue-ok (ok a) f s s' b h = (a, refl, h)
continue-ok (err e) f s s' b h = cc

-- Two steps that return are two runs that return.
pub bind-ok {ℓ} :
    {S A B : Type ℓ} (m : Exec S A) (f : A → Exec S B) (s s' : S) (b : B)
    → (m >>= f) s ≡ (ok b, s')
    → (a : A) × (s1 : S) × (m s ≡ (ok a, s1)) × (f a s1 ≡ (ok b, s'))
bind-ok m f s s' b h =
    let (a, first, second) = continue-ok (m s).0 f (m s).1 s' b h in
    (a, (m s).1, (λ i. (first i, (m s).1)), second)

-- A read that returns leaves the state to the next step.
pub query-ok {ℓ} :
    {S A B : Type ℓ} (read : S → Result A) (f : A → Exec S B) (s s' : S) (b : B)
    → (query read >>= f) s ≡ (ok b, s')
    → (a : A) × (read s ≡ ok a) × (f a s ≡ (ok b, s'))
query-ok read f s s' b h = continue-ok (read s) f s s' b h

-- The same of any step, with the state that it leaves written out.
pub run-ok {ℓ} :
    {S A B : Type ℓ} (m : Exec S A) (f : A → Exec S B) (s s' : S) (b : B)
    → (m >>= f) s ≡ (ok b, s')
    → (a : A) × ((m s).0 ≡ ok a) × (f a (m s).1 ≡ (ok b, s'))
run-ok m f s s' b h = continue-ok (m s).0 f (m s).1 s' b h

-- The run behind a first step whose outcome is known.
pub bind-known {ℓ} :
    {S A B : Type ℓ} (m : Exec S A) (f : A → Exec S B) (s s1 : S) (a : A) (r : Result B × S)
    → m s ≡ (ok a, s1)
    → (m >>= f) s ≡ r
    → f a s1 ≡ r
bind-known {S} {A} {B} m f s s1 a r known h =
    sym (ap (λ (x : Result A × S). continue x.0 f x.1) known) ∙ h

-- A guard that lets the run go on held.
pub guard-ok {ℓ} :
    {S B : Type ℓ} (b : Bool) (e : Error) (f : Unit {ℓ} → Exec S B) (s s' : S) (r : B)
    → (guard b e >>= f) s ≡ (ok r, s')
    → (b ≡ true) × (f tt s ≡ (ok r, s'))
guard-ok true e f s s' r h = (refl, h)
guard-ok false e f s s' r h = cc

-- `COMMIT` after a result, `ROLLBACK` after an error.
abbrev pub finish {ℓ} : {S A : Type ℓ} → S → Result A × S → Result A × S
finish before (ok a, after) = (ok a, after)
finish before (err e, after) = (err e, before)
