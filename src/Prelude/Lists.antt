-- ===== src/Prelude/Lists.antt =====
-- Lists measured by native numbers and searched by Boolean tests.
use Prim.Native.Nat.{ℕ, zero, suc, ◌+◌}
use mathlib.Core.Path.{◌≡◌, refl, ap}
use mathlib.Core.Logic.{inl, inr}
use mathlib.Core.Bool.{not, Bool, true, false, ◌&&◌, ◌||◌}
use mathlib.Core.Option.{Option, none, some}
use mathlib.Core.List.{List, [], ◌∷◌, ◌++◌}
use native.Mathlib.Omega.{arith}
use package.himitsu.Prelude.Tests.{if◌then◌else◌, ◌==◌, Bool-cases}

module _ {ℓ} {A : Type ℓ} where
  abbrev pub length : List A → ℕ
  length [] = 0
  length (x ∷ xs) = suc (length xs)

  abbrev pub any : (A → Bool) → List A → Bool
  any p [] = false
  any p (x ∷ xs) = p x || any p xs

  abbrev pub all : (A → Bool) → List A → Bool
  all p [] = true
  all p (x ∷ xs) = p x && all p xs

  abbrev pub filter : (A → Bool) → List A → List A
  filter p [] = []
  filter p (x ∷ xs) = let rest = filter p xs in if p x then x ∷ rest else rest

  abbrev pub find : (A → Bool) → List A → Option A
  find p [] = none
  find p (x ∷ xs) = if p x then some x else find p xs

  abbrev pub get_elem? : List A → ℕ → Option A
  get_elem? [] n = none
  get_elem? (x ∷ xs) zero = some x
  get_elem? (x ∷ xs) (suc n) = get_elem? xs n

  -- `UPDATE … SET f WHERE p`.
  abbrev pub update_where : (A → Bool) → (A → A) → List A → List A
  update_where p f [] = []
  update_where p f (x ∷ xs) = (if p x then f x else x) ∷ update_where p f xs

  abbrev pub count_where : (A → Bool) → List A → ℕ
  count_where p [] = 0
  count_where p (x ∷ xs) = (if p x then 1 else 0) + count_where p xs

  pub length-append : (xs ys : List A) → length (xs ++ ys) ≡ length xs + length ys
  length-append [] ys = omega arith
  length-append (x ∷ xs) ys = omega (arith, length-append xs ys)

  pub length-filter : (p : A → Bool) (xs : List A) → length (filter p xs) ≡ count_where p xs
  length-filter p [] = refl
  length-filter p (x ∷ xs) = ground (arith, length-filter p xs)

  pub length-update_where :
      (p : A → Bool) (f : A → A) (xs : List A) → length (update_where p f xs) ≡ length xs
  length-update_where p f [] = refl
  length-update_where p f (x ∷ xs) = ap suc (length-update_where p f xs)

abbrev pub elem : ℕ → List ℕ → Bool
elem n xs = any (λ x. x == n) xs

-- `new Set(xs).size === xs.length`.
abbrev pub distinct : List ℕ → Bool
distinct [] = true
distinct (x ∷ xs) = if elem x xs then false else distinct xs

module _ {ℓ} {A : Type ℓ} where
  -- A statement that does not change what a test reads does not change the test on the table.
  pub any-update_where :
      (p q : A → Bool) (f : A → A)
      → ((x : A) → p (f x) ≡ p x)
      → (xs : List A) → any p (update_where q f xs) ≡ any p xs
  any-update_where p q f same [] = refl
  any-update_where p q f same (x ∷ xs) = ground (arith, same x, any-update_where p q f same xs)

  pub count-update_where :
      (p q : A → Bool) (f : A → A)
      → ((x : A) → p (f x) ≡ p x)
      → (xs : List A) → count_where p (update_where q f xs) ≡ count_where p xs
  count-update_where p q f same [] = refl
  count-update_where p q f same (x ∷ xs) = ground (arith, same x, count-update_where p q f same xs)

  pub find-holds : (p : A → Bool) (xs : List A) (a : A) → find p xs ≡ some a → p a ≡ true
  find-holds p [] a h = cc
  find-holds p (x ∷ xs) a h = elim (Bool-cases (p x)) [
    | inl here ↦ let same : some x ≡ some a = ground (arith, here) in ground (arith, same, here)
    | inr other ↦ find-holds p xs a (ground (arith, other))
  ]

  -- A row that an UPDATE finds, and the rows that it does not.
  pub find-update_where :
      (p : A → Bool) (f : A → A)
      → ((x : A) → p (f x) ≡ p x)
      → (xs : List A) (a : A) → find p xs ≡ some a
      → find p (update_where p f xs) ≡ some (f a)
  find-update_where p f same [] a h = cc
  find-update_where p f same (x ∷ xs) a h = elim (Bool-cases (p x)) [
    | inl here ↦
        let first : some x ≡ some a = ground (arith, here) in
        let kept = same x in ground (arith, here, first)
    | inr other ↦
        let more = find-update_where p f same xs a (ground (arith, other)) in
        ground (arith, other, more)
  ]

  pub filter-update_where :
      (p : A → Bool) (f : A → A)
      → ((x : A) → p (f x) ≡ p x)
      → (xs : List A) → filter (λ x. not (p x)) (update_where p f xs) ≡ filter (λ x. not (p x)) xs
  filter-update_where p f same [] = refl
  filter-update_where p f same (x ∷ xs) = ground (arith, same x, filter-update_where p f same xs)

  pub count_of_find :
      (p q : A → Bool)
      → ((x : A) → p x ≡ true → q x ≡ true)
      → (xs : List A) (a : A) → find p xs ≡ some a
      → any q xs ≡ true
  count_of_find p q imp [] a h = cc
  count_of_find p q imp (x ∷ xs) a h = ground (arith, imp x, count_of_find p q imp xs a)

module _ {ℓ κ} {A : Type ℓ} (P : A → Type κ) where
  abbrev pub All : List A → Type κ
  All [] = Unit
  All (x ∷ xs) = P x × All xs

  pub All-update_where :
      (q : A → Bool) (f : A → A)
      → ((x : A) → P x → q x ≡ true → P (f x))
      → (xs : List A) → All xs
      → All (update_where q f xs)
  All-update_where q f keep [] h = tt
  All-update_where q f keep (x ∷ xs) (p, h) = (
    elim (q x) as (λ b. q x ≡ b → P (if b then f x else x)) [
      | true ↦ λ e. keep x p e
      | false ↦ λ e. p
    ]
        refl,
    All-update_where q f keep xs h,
  )
