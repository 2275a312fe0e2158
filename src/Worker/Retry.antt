-- ===== src/Worker/Retry.antt =====
-- crates/journal-inbox-worker/src/lib.rs: `Retry`, the exponential backoff. A `Duration` is its
-- number of nanoseconds; sums saturate at the largest duration and the largest `u32`.
use agent_journal.Prelude.{
  ◌∙◌, List, [], ◌∷◌, length, ℕ, suc, ◌+◌, ◌-◌, ◌*◌, ◌^◌, ◌≤◌, min, ◌≡◌, arith,
}

abbrev pub second : ℕ
second = 1000000000

-- `Duration::MAX`
abbrev pub duration_max : ℕ
duration_max = (2 ^ 64 - 1) * second + 999999999

abbrev pub u32_max : ℕ
u32_max = 2 ^ 32 - 1

pub record Retry : Type 0 where
  pub failures : ℕ
  pub after : ℕ

-- `Retry::default`
abbrev pub no_retry : Retry
no_retry = record { failures = 0; after = 0 }

unfoldable pub saturating_add : ℕ → ℕ → ℕ
saturating_add a b = min (a + b) duration_max

-- `1 << (failures - 1).min(8)` seconds
unfoldable pub backoff : ℕ → ℕ
backoff failures = 2 ^ min (failures - 1) 8 * second

-- `Retry::fail`
unfoldable pub fail : Retry → ℕ → Retry
unfolding saturating_add
fail retry now =
    let failures = min (retry.failures + 1) u32_max in
    record { failures = failures; after = saturating_add now (backoff failures) }

-- The retry after failures at these times, one after the other
unfoldable pub fail_all : Retry → List ℕ → Retry
fail_all retry [] = retry
fail_all retry (now ∷ times) = fail_all (fail retry now) times

min_shift :
    (m k : ℕ) → m ≤ u32_max → min (min (m + 1) u32_max + k) u32_max ≡ min (m + suc k) u32_max
min_shift m k h = omega (arith, h)

-- The number of failures stops at the largest `u32`.
fail_all-failures :
    (r : Retry) (times : List ℕ)
    → r.failures ≤ u32_max
    → (fail_all r times).failures ≡ min (r.failures + length times) u32_max
unfolding fail_all fail
fail_all-failures r [] h = omega (arith, h)
fail_all-failures r (now ∷ times) h =
    fail_all-failures (fail r now) times (omega arith) ∙ min_shift r.failures (length times) h

-- After a run of n failures, of any length and at any times, one more failure at `now` makes the count
-- n + 1, and puts the next attempt 2 ^ min n 8 seconds after `now`. The count stops at the largest
-- `u32`, and the time at the largest duration.
pub fail-fail_all :
    (times : List ℕ) (now : ℕ)
    → fail (fail_all no_retry times) now ≡ record {
      failures = min (length times + 1) u32_max;
      after = min (now + 2 ^ min (length times) 8 * second) duration_max;
    }
unfolding fail saturating_add backoff
fail-fail_all times now =
    let count = fail_all-failures no_retry times (omega arith) in
    let f = (fail_all no_retry times).failures in
    let e : min (f + 1) u32_max ≡ min (length times + 1) u32_max = omega (arith, count) in
    let d : min (min (f + 1) u32_max - 1) 8 ≡ min (length times) 8 = omega (arith, count) in
    λ i. record { failures = e i; after = min (now + 2 ^ d i * second) duration_max }
