-- ===== src/Jobs/Delay.antt =====
-- `RetryPolicy.delay` of documents/jobs/models.py, and the instant that `_failure` of
-- documents/jobs/sqlite.py makes of it.
use estudio_polymind_llm_orc.Prelude.{ℕ, ◌+◌, ◌-◌, ◌*◌, ◌/◌, ◌^◌, ◌≤◌, min, max, or_else, arith}
use native.Mathlib.Nat.{le_trans, div-le_of_le-mul, mul-le-mul_left}
use estudio_polymind_llm_orc.Jobs.Models.{Micros, Digest, RetryPolicy, Hashing, delay, jitter_bits}
use estudio_polymind_llm_orc.Jobs.Errors.{Failure}
use estudio_polymind_llm_orc.Jobs.Tables.{Ledger, JobRow, StepRow}
use estudio_polymind_llm_orc.Jobs.Failing.{retry_at}

below : (j : ℕ) → 4294967295000000 - j ≤ 4294967295000000
below j = omega arith

scaled_le : (m j : ℕ) → m * (4294967295000000 - j) / 4294967295000000 ≤ m
scaled_le m j =
    div-le_of_le-mul 4294967295000000 (le_trans (mul-le-mul_left m (below j)) (omega arith))

min_le : (m n : ℕ) → min m n ≤ m
min_le m n = omega arith

delay-le :
    (h : Hashing) (p : RetryPolicy) (key : Digest) (attempt : ℕ)
    → delay h p key attempt ≤ p.max_micros
unfolding delay
delay-le h p key attempt =
    le_trans
      (scaled_le (min p.max_micros (p.base_micros * 2 ^ (attempt - 1)))
        (p.jitter * jitter_bits h key attempt))
      (min_le p.max_micros (p.base_micros * 2 ^ (attempt - 1)))

between : (d most hint : ℕ) → d ≤ most → (hint ≤ max d hint) × (max d hint ≤ max most hint)
between d most hint le = (omega arith, omega arith)

-- The instant of the next attempt lies at or after the end of the failure's `retry_after`, counted from
-- now, and at most the longer of that and the policy's `max_micros` after now, whatever the attempt and
-- the digest behind the jitter. A failure without `retry_after` counts as one of no time.
pub retry_at-within :
    (l : Ledger) (job : JobRow) (row : StepRow) (failure : Failure) (now : Micros)
    → (now + or_else failure.retry_after 0 ≤ retry_at l job row failure now)
      × (retry_at l job row failure now
          ≤ now + max job.request.profile.retry.max_micros (or_else failure.retry_after 0))
unfolding retry_at
retry_at-within l job row failure now =
    let (low, high) =
      between (delay l.hashing job.request.profile.retry row.step_key (max row.attempt_count 1))
        job.request.profile.retry.max_micros (or_else failure.retry_after 0)
        (delay-le l.hashing job.request.profile.retry row.step_key (max row.attempt_count 1)) in
    (omega (arith, low), omega (arith, high))
