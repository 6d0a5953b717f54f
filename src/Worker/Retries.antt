-- ===== src/Worker/Retries.antt =====
-- The retries of an event that keeps failing: `mark_retry` of outbox_repository.py and the delay of
-- `_handle_transient_failure` in processor.py.
use Prim.Native.Nat.{min}
use global_ledger_consistenc.Base.{
  ℕ, zero, suc, ◌+◌, ◌*◌, ◌^◌, ◌≤◌, ◌≡◌, ap, arith, leb, if◌then◌else◌,
}
use global_ledger_consistenc.Contracts.{pending, dead}
use global_ledger_consistenc.Orm.{OutboxEvent}
use global_ledger_consistenc.Worker.Outbox.{mark_retry}
use global_ledger_consistenc.Worker.Processor.{retry_delay}

-- So many transient failures, the last at the given time.
unfoldable pub fail_times : ℕ → (ℕ → ℕ) → OutboxEvent → OutboxEvent
unfolding mark_retry retry_delay
fail_times zero at e = e
fail_times (suc n) at e =
    let before = fail_times n at e in mark_retry (at n + retry_delay before.attempts) before

fail_times-attempts :
    (n : ℕ) (at : ℕ → ℕ) (e : OutboxEvent) → (fail_times n at e).attempts ≡ e.attempts + n
unfolding fail_times
fail_times-attempts zero at e = ground arith
fail_times-attempts (suc n) at e = ground (arith, fail_times-attempts n at e)

-- After any positive number of transient failures the event's attempts have grown by that number, and
-- it is dead if they are seven or more and pending if they are fewer.
pub fail_times_lem :
    (n : ℕ) (at : ℕ → ℕ) (e : OutboxEvent)
    → let failed = fail_times (suc n) at e in
      (failed.attempts ≡ e.attempts + suc n)
      × (failed.status ≡ (if leb 7 (e.attempts + suc n) then dead else pending))
unfolding fail_times
fail_times_lem n at e =
    (fail_times-attempts (suc n) at e, ground (arith, fail_times-attempts n at e))

retry_delay_late : (n : ℕ) → retry_delay (suc (suc (suc (suc (suc n))))) ≡ 64_000_000
unfolding retry_delay
retry_delay_late n =
    let e : min (suc (suc (suc (suc (suc n)))) + 1) 6 ≡ 6 = omega arith in
    ap (λ m. 2 ^ m * 1_000_000) e

-- A retry waits at least two seconds and at most sixty-four, and never less than the one before.
pub retry_delay_bounds :
    (n : ℕ)
    → (2_000_000 ≤ retry_delay n)
      × (retry_delay n ≤ 64_000_000)
      × (retry_delay n ≤ retry_delay (suc n))
unfolding retry_delay
retry_delay_bounds zero = (omega arith, omega arith, omega arith)
retry_delay_bounds (suc zero) = (omega arith, omega arith, omega arith)
retry_delay_bounds (suc (suc zero)) = (omega arith, omega arith, omega arith)
retry_delay_bounds (suc (suc (suc zero))) = (omega arith, omega arith, omega arith)
retry_delay_bounds (suc (suc (suc (suc zero)))) = (omega arith, omega arith, omega arith)
retry_delay_bounds (suc (suc (suc (suc (suc n))))) = (
  omega (arith, retry_delay_late n),
  omega (arith, retry_delay_late n),
  omega (arith, retry_delay_late n, retry_delay_late (suc n)),
)
