-- ===== src/Login.antt =====
-- LoginAttemptLimiter of packages/auth/src/index.ts: failed logins counted per identity within a
-- window of time. The `Map` of buckets is a function from identities.
pub mod Counting
mod Tests
use himitsu.Prelude.{
  ℕ, suc, ◌+◌, Bool, true, false, Option, none, some, List, [], ◌∷◌, length, leb, or_else,
  if◌then◌else◌,
}
use himitsu.Text.{Text, text_eq}
use himitsu.Errors.{Result, ok, err, fault}

pub record Bucket : Type 0 where
  pub failures : ℕ
  pub reset_at : ℕ

abbrev pub Buckets : Type 0
Buckets = Text → Option Bucket

pub record Limiter : Type 0 where
  pub max_failures : ℕ
  pub window_ms : ℕ
  pub buckets : Buckets
  pub operations : ℕ

-- `positiveInteger`.
pub positive_integer : ℕ → Result ℕ
positive_integer value = if leb value 0 then err fault else ok value

abbrev limiter_of : Result ℕ → Result ℕ → Result Limiter
limiter_of (err e) window_ms = err e
limiter_of (ok max_failures) (err e) = err e
limiter_of (ok max_failures) (ok window_ms) = ok (record {
  max_failures = max_failures;
  window_ms = window_ms;
  buckets = λ _. none;
  operations = 0;
})

-- The constructor.
pub limiter : Option ℕ → Option ℕ → Result Limiter
unfolding positive_integer
limiter max_failures window_ms =
    limiter_of (positive_integer (or_else max_failures 5))
      (positive_integer (or_else window_ms 900000))

abbrev pub set_bucket : Text → Option Bucket → Buckets → Buckets
set_bucket identity bucket buckets x = if text_eq identity x then bucket else buckets x

abbrev pub is_expired : ℕ → Bucket → Bool
is_expired now bucket = leb bucket.reset_at now

-- What the test of one identity returns, with the answers for the rest when its bucket is deleted
-- and when it stays.
abbrev blocked_at :
    ℕ → ℕ → Option Bucket → Buckets → Bool × Buckets → Bool × Buckets → Bool × Buckets
blocked_at max_failures now none buckets dropped kept = kept
blocked_at max_failures now (some bucket) buckets dropped kept =
    if is_expired now bucket
    then dropped
    else if leb max_failures bucket.failures
    then (true, buckets)
    else kept

-- `identities.some(…)`, which stops at the first blocked identity and deletes expired buckets
-- before it.
pub blocked_among : ℕ → ℕ → List Text → Buckets → Bool × Buckets
blocked_among max_failures now [] buckets = (false, buckets)
blocked_among max_failures now (identity ∷ rest) buckets =
    blocked_at max_failures now (buckets identity) buckets
      (blocked_among max_failures now rest (set_bucket identity none buckets))
      (blocked_among max_failures now rest buckets)

pub is_blocked : ℕ → List Text → Limiter → Bool × Limiter
is_blocked now identities l =
    let answer = blocked_among l.max_failures now identities l.buckets in
    (answer.0, record l { buckets = answer.1 })

abbrev pub fresh_bucket : ℕ → ℕ → Bucket
fresh_bucket now window_ms = record { failures = 0; reset_at = now + window_ms }

-- The bucket to count in: a new one where there is none or it has expired.
pub current_bucket : ℕ → ℕ → Option Bucket → Bucket
current_bucket now window_ms none = fresh_bucket now window_ms
current_bucket now window_ms (some bucket) =
    if is_expired now bucket then fresh_bucket now window_ms else bucket

abbrev pub one_more : Bucket → Bucket
one_more bucket = record bucket { failures = suc bucket.failures }

pub count_failure : ℕ → ℕ → Text → Buckets → Buckets
count_failure now window_ms identity buckets =
    set_bucket identity (some (one_more (current_bucket now window_ms (buckets identity)))) buckets

-- `for (const identity of identities)`.
pub count_failures : ℕ → ℕ → List Text → Buckets → Buckets
count_failures now window_ms [] buckets = buckets
count_failures now window_ms (identity ∷ rest) buckets =
    count_failures now window_ms rest (count_failure now window_ms identity buckets)

abbrev pub live : ℕ → Option Bucket → Option Bucket
live now none = none
live now (some bucket) = if is_expired now bucket then none else some bucket

-- The sweep over all buckets.
pub drop_expired : ℕ → Buckets → Buckets
drop_expired now buckets x = live now (buckets x)

-- The buckets with the failure counted, swept after every 1,000 operations.
pub counted : ℕ → List Text → Limiter → Limiter
unfolding drop_expired
counted now identities l =
    let buckets = count_failures now l.window_ms identities l.buckets in
    let operations = l.operations + length identities in
    if leb 1000 operations
    then record l { buckets = drop_expired now buckets; operations = 0 }
    else record l { buckets = buckets; operations = operations }

pub record_failure : ℕ → List Text → Limiter → Bool × Limiter
record_failure now identities l = is_blocked now identities (counted now identities l)

pub delete_all : List Text → Buckets → Buckets
delete_all [] buckets = buckets
delete_all (identity ∷ rest) buckets = delete_all rest (set_bucket identity none buckets)

pub clear : List Text → Limiter → Limiter
clear identities l = record l { buckets = delete_all identities l.buckets }
