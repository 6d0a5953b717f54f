-- ===== src/Worker.antt =====
-- services/ledger-worker: the exceptions, the counters of its process, and the injector's port.
pub mod Payload
pub mod Outbox
pub mod Handlers
pub mod Processor
pub mod Reconciliation
pub mod Retries
pub mod Injector
pub mod Main
use global_ledger_consistenc.Base.{ℕ, String, Bool}
use global_ledger_consistenc.Contracts.{ErrorCode, WorkerMessage}
use global_ledger_consistenc.Session.{Action}

-- core/errors.py
pub record WorkerError : Type 0 where
  pub error_code : ErrorCode
  pub message : WorkerMessage

-- A `WorkerError`, or any other exception.
pub data Raised : Type 0 where
  worker : WorkerError → Raised
  exception : Raised

-- telemetry/metrics.py
pub record Metrics : Type 0 where
  pub payments_processed : ℕ
  pub ledger_imbalance : ℕ
  pub outbox_retry : ℕ
  pub negative_balance_detected : ℕ
  pub invariant_violation : ℕ

abbrev pub WorkerAction : Type 0 → Type 0
WorkerAction A = Action Metrics Raised A

-- `FailureInjectorPort` of processor.py; `maybe_apply_db_delay` only sleeps.
pub record FailureInjectorPort : Type 0 where
  pub should_raise_worker_exception : String → ℕ → Bool
  pub should_fail_redis_simulation : String → ℕ → Bool
