-- ===== src/Login/Tests.antt =====
-- Runs of the login limiter, and the theorems at those runs.
use himitsu.Prelude.{
  ◌+◌, ◌<◌, ◌≡◌, refl, true, false, none, List, [], ◌∷◌, any, leb, if◌then◌else◌, arith,
}
use himitsu.Text.{Text, text_eq, codes, elem_text}
use himitsu.Login.{
  Limiter, current_bucket, count_failure, count_failures, counted, drop_expired, blocked_among,
  is_blocked, record_failure, clear,
}
use himitsu.Login.Counting.{
  live_failures, occurrences, is_blocked_iff_over_limit, record_failure_counts, clear_resets,
}

abbrev empty_limiter : Limiter
empty_limiter = record { max_failures = 2; window_ms = 100; buckets = λ _. none; operations = 999 }

abbrev attempt : List Text
attempt = codes "ip" ∷ codes "user" ∷ []

abbrev once : Limiter
once = (record_failure 10 attempt empty_limiter).1

second_failure_blocks :
    ((record_failure 10 attempt empty_limiter).0 ≡ false)
    × ((record_failure 20 attempt once).0 ≡ true)
    × ((is_blocked 110 attempt once).0 ≡ false)
unfolding text_eq current_bucket count_failure count_failures counted drop_expired blocked_among
    is_blocked record_failure
second_failure_blocks = (refl, refl, refl)

record_failure_counts_example :
    ((x : Text)
      → live_failures 10 once.buckets x
        ≡ live_failures 10 empty_limiter.buckets x + occurrences x attempt)
    × ((record_failure 10 attempt empty_limiter).0
        ≡ any
            (λ i. leb 2 (live_failures 10 empty_limiter.buckets i + occurrences i attempt))
            attempt)
    × (once.operations < 1000)
record_failure_counts_example =
    record_failure_counts 10 attempt empty_limiter (omega arith) (omega arith)

is_blocked_iff_over_limit_example :
    ((is_blocked 50 attempt empty_limiter).0
      ≡ any (λ i. leb 2 (live_failures 50 empty_limiter.buckets i)) attempt)
    × ((x : Text)
        → live_failures 50 (is_blocked 50 attempt empty_limiter).1.buckets x
          ≡ live_failures 50 empty_limiter.buckets x)
is_blocked_iff_over_limit_example = is_blocked_iff_over_limit 50 attempt empty_limiter (omega arith)

clear_resets_example :
    live_failures 10 (clear attempt once).buckets (codes "ip")
    ≡ (if elem_text (codes "ip") attempt then 0 else live_failures 10 once.buckets (codes "ip"))
clear_resets_example = clear_resets 10 attempt once (codes "ip")
