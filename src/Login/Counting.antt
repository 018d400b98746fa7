-- ===== src/Login/Counting.antt =====
-- The login limiter against an independent count of failures.
use himitsu.Prelude.{
  ℕ, ◌+◌, ◌<◌, ◌≡◌, refl, ap, sym, ◌∙◌, inl, inr, Bool, true, Option, none, some, List, [], ◌∷◌,
  any, length, leb, if◌then◌else◌, Bool-cases, Option-cases, arith,
}
use himitsu.Text.{Text, text_eq, text_eq_iff, elem_text}
use himitsu.Login.{
  Bucket, Buckets, Limiter, set_bucket, is_expired, live, blocked_among, is_blocked, current_bucket,
  count_failure, count_failures, drop_expired, counted, record_failure, delete_all, clear,
}

abbrev failures_of : Option Bucket → ℕ
failures_of none = 0
failures_of (some bucket) = bucket.failures

-- The failures of an identity whose window is open.
abbrev pub live_failures : ℕ → Buckets → Text → ℕ
live_failures now buckets x = failures_of (live now (buckets x))

abbrev pub occurrences : Text → List Text → ℕ
occurrences x [] = 0
occurrences x (y ∷ ys) = (if text_eq y x then 1 else 0) + occurrences x ys

text_eq_same : (s t : Text) → text_eq s t ≡ true → s ≡ t
text_eq_same s t h = (text_eq_iff s t).0 h

drop_live :
    (now : ℕ) (identity : Text) (bucket : Bucket) (buckets : Buckets)
    → buckets identity ≡ some bucket
    → is_expired now bucket ≡ true
    → (x : Text) → live now (set_bucket identity none buckets x) ≡ live now (buckets x)
drop_live now identity bucket buckets found over x = elim (Bool-cases (text_eq identity x)) [
  | inl same ↦
      let here : buckets x ≡ some bucket =
        ap buckets (sym (text_eq_same identity x same)) ∙ found in
      ground arith
  | inr other ↦ ground arith
]

any_same :
    (max now : ℕ) (b b' : Buckets)
    → ((x : Text) → live now (b x) ≡ live now (b' x))
    → (ids : List Text)
    → any (λ i. leb max (live_failures now b i)) ids
      ≡ any (λ i. leb max (live_failures now b' i)) ids
any_same max now b b' same [] = refl
any_same max now b b' same (i ∷ ids) = rw (same i, any_same max now b b' same ids)

module _ (max now : ℕ) (positive : 0 < max) where
  abbrev over_limit : Buckets → Text → Bool
  over_limit buckets i = leb max (live_failures now buckets i)

  blocked_among_lem :
      (ids : List Text) (buckets : Buckets)
      → ((blocked_among max now ids buckets).0 ≡ any (over_limit buckets) ids)
        × ((x : Text) → live now ((blocked_among max now ids buckets).1 x) ≡ live now (buckets x))
  unfolding blocked_among
  blocked_among_lem [] buckets = (refl, λ x. refl)
  blocked_among_lem (i ∷ ids) buckets = elim (Option-cases (buckets i)) [
    | inl missing ↦
        let (answer, kept) = blocked_among_lem ids buckets in
        (ground (arith, missing, answer), λ x. ground (arith, missing, kept x))
    | inr (bucket, found) ↦ elim (Bool-cases (is_expired now bucket)) [
      | inl over ↦
          let dropped = set_bucket i none buckets in
          let (answer, kept) = blocked_among_lem ids dropped in
          let same = drop_live now i bucket buckets found over in
          (
            ground (arith, found, over, answer, any_same max now dropped buckets same ids),
            λ x. ground (arith, found, over, kept x, same x),
          )
      | inr running ↦
          let (answer, kept) = blocked_among_lem ids buckets in
          (ground (arith, found, running, answer), λ x. ground (arith, found, running, kept x))
    ]
  ]

count_once :
    (now window : ℕ) (i : Text) (buckets : Buckets)
    → 0 < window
    → (x : Text)
    → live_failures now (count_failure now window i buckets) x
      ≡ live_failures now buckets x + (if text_eq i x then 1 else 0)
unfolding count_failure current_bucket
count_once now window i buckets w x = elim (Bool-cases (text_eq i x)) [
  | inl same ↦
      let here : buckets i ≡ buckets x = ap buckets (text_eq_same i x same) in
      elim (Option-cases (buckets x)) [
        | inl missing ↦ ground (arith, here, missing)
        | inr (bucket, found) ↦ ground (arith, here, found)
      ]
  | inr other ↦ ground arith
]

count_all :
    (now window : ℕ)
    → 0 < window
    → (ids : List Text) (buckets : Buckets) (x : Text)
    → live_failures now (count_failures now window ids buckets) x
      ≡ live_failures now buckets x + occurrences x ids
unfolding count_failures
count_all now window w [] buckets x = omega arith
count_all now window w (i ∷ ids) buckets x = omega (
  arith,
  count_all now window w ids (count_failure now window i buckets) x,
  count_once now window i buckets w x,
)

-- Where the limit is positive, the test blocks exactly when some identity has reached the limit
-- within its window, and no count is changed by it.
pub is_blocked_iff_over_limit :
    (now : ℕ) (ids : List Text) (l : Limiter)
    → 0 < l.max_failures
    → ((is_blocked now ids l).0 ≡ any (λ i. leb l.max_failures (live_failures now l.buckets i)) ids)
      × ((x : Text)
          → live_failures now (is_blocked now ids l).1.buckets x ≡ live_failures now l.buckets x)
unfolding is_blocked
is_blocked_iff_over_limit now ids l positive =
    let (answer, kept) = blocked_among_lem l.max_failures now positive ids l.buckets in
    (answer, λ x. ap failures_of (kept x))

live_idempotent : (now : ℕ) (bucket : Option Bucket) → live now (live now bucket) ≡ live now bucket
live_idempotent now none = refl
live_idempotent now (some bucket) = ground arith

any_equal :
    (max : ℕ) (f g : Text → ℕ)
    → ((x : Text) → f x ≡ g x)
    → (ids : List Text) → any (λ i. leb max (f i)) ids ≡ any (λ i. leb max (g i)) ids
any_equal max f g same [] = refl
any_equal max f g same (i ∷ ids) = rw (same i, any_equal max f g same ids)

counted_lem :
    (now : ℕ) (ids : List Text) (l : Limiter)
    → 0 < l.window_ms
    → ((counted now ids l).max_failures ≡ l.max_failures)
      × ((counted now ids l).operations < 1000)
      × ((x : Text)
          → live_failures now (counted now ids l).buckets x
            ≡ live_failures now l.buckets x + occurrences x ids)
unfolding counted drop_expired
counted_lem now ids l window =
    let counts = count_all now l.window_ms window ids l.buckets in
    elim (Bool-cases (leb 1000 (l.operations + length ids))) [
      | inl full ↦ (
        rw full refl,
        ground arith,
        λ x.
            rw (full, live_idempotent now (count_failures now l.window_ms ids l.buckets x))
              (counts x),
      )
      | inr room ↦ (rw room refl, ground arith, λ x. rw room (counts x))
    ]

-- Where the limit and the window are positive, a failed login counts once for every occurrence of
-- an identity in it, whatever the sweep and the test delete, and the answer says whether an
-- identity of it has then reached the limit.
pub record_failure_counts :
    (now : ℕ) (ids : List Text) (l : Limiter)
    → 0 < l.max_failures
    → 0 < l.window_ms
    → ((x : Text)
        → live_failures now (record_failure now ids l).1.buckets x
          ≡ live_failures now l.buckets x + occurrences x ids)
      × ((record_failure now ids l).0
          ≡ any (λ i. leb l.max_failures (live_failures now l.buckets i + occurrences i ids)) ids)
      × ((record_failure now ids l).1.operations < 1000)
unfolding record_failure is_blocked
record_failure_counts now ids l positive window =
    let (limit, few, counts) = counted_lem now ids l window in
    let (answer, kept) =
      is_blocked_iff_over_limit now ids (counted now ids l) (rw limit positive) in
    (
      λ x. kept x ∙ counts x,
      answer
          ∙ ap (λ (m : ℕ). any (λ i. leb m (live_failures now (counted now ids l).buckets i)) ids)
              limit
          ∙ any_equal l.max_failures (live_failures now (counted now ids l).buckets)
              (λ i. live_failures now l.buckets i + occurrences i ids) counts ids,
      few,
    )

delete_once :
    (now : ℕ) (i : Text) (buckets : Buckets) (x : Text)
    → live_failures now (set_bucket i none buckets) x
      ≡ (if text_eq i x then 0 else live_failures now buckets x)
delete_once now i buckets x = ground arith

delete_every :
    (now : ℕ) (ids : List Text) (buckets : Buckets) (x : Text)
    → live_failures now (delete_all ids buckets) x
      ≡ (if elem_text x ids then 0 else live_failures now buckets x)
unfolding delete_all
delete_every now [] buckets x = refl
delete_every now (i ∷ ids) buckets x =
    ground (arith, delete_every now ids (set_bucket i none buckets) x, delete_once now i buckets x)

-- A successful login clears the count of every identity of it, and of no other.
pub clear_resets :
    (now : ℕ) (ids : List Text) (l : Limiter) (x : Text)
    → live_failures now (clear ids l).buckets x
      ≡ (if elem_text x ids then 0 else live_failures now l.buckets x)
unfolding clear
clear_resets now ids l x = delete_every now ids l.buckets x
