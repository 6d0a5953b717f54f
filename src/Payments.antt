-- ===== src/Payments.antt =====
-- services/payments-api: the exceptions and the counters of its process.
pub mod UseCase
pub mod Strategies
pub mod CreatePayment
pub mod Migrate
use global_ledger_consistenc.Base.{ℕ, List}
use global_ledger_consistenc.Contracts.{ErrorCode, DomainMessage}
use global_ledger_consistenc.Session.{Action}

-- core/errors.py
pub record DomainError : Type 0 where
  pub error_code : ErrorCode
  pub message : DomainMessage
  pub http_status : ℕ

-- What the use case can raise; `validation_error` is pydantic's.
pub data Raised : Type 0 where
  domain : DomainError → Raised
  integrity_error sqlalchemy_error validation_error key_error : Raised

-- telemetry/metrics.py; a latency is kept in nanoseconds.
pub record Metrics : Type 0 where
  pub payments_received : ℕ
  pub payments_processed : ℕ
  pub idempotency_replay : ℕ
  pub request_latency : List ℕ

abbrev pub ApiAction : Type 0 → Type 0
ApiAction A = Action Metrics Raised A
