-- ===== src/Contracts.antt =====
-- shared/src/shared/contracts: the enums with their values, the messages, the request and response
-- models. An error's message is the constructor of its catalogue; `domain_message` gives the text.
use Prim.Native.String.{count}
use global_ledger_consistenc.Base.{
  ℕ, String, Bool, true, ◌≡◌, refl, ◌⊎◌, inl, inr, Option, none, some, arith, ◌==◌, leb, ◌&&◌,
  if◌then◌else◌,
}
use global_ledger_consistenc.Int.{ℤ, pos, ltb_ℤ, leb_ℤ, ◌≤ℤ◌}

pub data ConsistencyMode : Type 0 where
  strong hybrid eventual : ConsistencyMode

-- `ConsistencyMode.value`
unfoldable pub mode_value : ConsistencyMode → String
mode_value strong = "strong"
mode_value hybrid = "hybrid"
mode_value eventual = "eventual"

-- `ConsistencyMode(raw)`; `none` is the `ValueError` of an unknown value.
unfoldable pub mode_of_value : String → Option ConsistencyMode
mode_of_value raw =
    if raw == "strong"
    then some strong
    else if raw == "hybrid"
    then some hybrid
    else if raw == "eventual"
    then some eventual
    else none

pub data ErrorCode : Type 0 where
  insufficient_funds invalid_payment idempotency_conflict : ErrorCode
  idempotency_unavailable dependency_unavailable invariant_violation : ErrorCode

pub data IncidentSeverity : Type 0 where
  info p2 p1 : IncidentSeverity

-- `IncidentSeverity.value`
unfoldable pub severity_value : IncidentSeverity → String
severity_value info = "info"
severity_value p2 = "p2"
severity_value p1 = "p1"

-- `IncidentSeverity(raw)`; `none` is the `ValueError` of an unknown value.
unfoldable pub severity_of_value : String → Option IncidentSeverity
severity_of_value raw =
    if raw == "info"
    then some info
    else if raw == "p2"
    then some p2
    else if raw == "p1"
    then some p1
    else none

pub data PaymentStatus : Type 0 where
  received reserved completed rejected : PaymentStatus

pub data PaymentMethod : Type 0 where
  pix ted : PaymentMethod

pub data LedgerDirection : Type 0 where
  debit credit : LedgerDirection

pub data OutboxStatus : Type 0 where
  pending processing processed dead : OutboxStatus

pub data OutboxEventType : Type 0 where
  payment_reserved payment_requested : OutboxEventType

pub type-cases : (t : OutboxEventType) → (t ≡ payment_reserved) ⊎ (t ≡ payment_requested)
type-cases payment_reserved = inl refl
type-cases payment_requested = inr refl

pub data DomainMessage : Type 0 where
  source_destination_must_differ conflict in_progress race : DomainMessage
  database_unavailable account_not_found funds : DomainMessage

unfoldable pub domain_message : DomainMessage → String
domain_message source_destination_must_differ = "source and destination must differ"
domain_message conflict = "idempotency key reused with different payload"
domain_message in_progress = "idempotency key is being processed"
domain_message race = "idempotency persistence race"
domain_message database_unavailable = "database unavailable"
domain_message account_not_found = "account not found"
domain_message funds = "insufficient funds"

pub data WorkerMessage : Type 0 where
  payment_not_found reserved_funds_below_amount no_account : WorkerMessage
  unexpected_event : OutboxEventType → WorkerMessage
  invalid_payload_field : String → WorkerMessage

pub PaymentStatus-discrete : Discrete PaymentStatus
PaymentStatus-discrete = hlevel

pub record CreatePaymentRequest : Type 0 where
  pub idempotency_key : String
  pub source_account_id : String
  pub destination_account_id : String
  pub amount_cents : ℤ
  pub method : PaymentMethod

abbrev pub within : ℕ → ℕ → String → Bool
within least most s = leb least (count s) && leb (count s) most

-- The `Field` constraints of `CreatePaymentRequest`; a body that fails them never reaches the handler.
unfoldable pub accepts : CreatePaymentRequest → Bool
accepts r =
    within 8 128 r.idempotency_key
    && within 3 64 r.source_account_id
    && within 3 64 r.destination_account_id
    && ltb_ℤ (pos 0) r.amount_cents
    && leb_ℤ r.amount_cents (pos 50_000_000)

pub record PaymentResponse : Type 0 where
  pub payment_id : String
  pub status : PaymentStatus

pub record ApiErrorResponse : Type 0 where
  pub error_code : ErrorCode
  pub message : String

pub accepts-amount :
    (r : CreatePaymentRequest)
    → accepts r ≡ true
    → (pos 1 ≤ℤ r.amount_cents) × (r.amount_cents ≤ℤ pos 50_000_000)
unfolding accepts
accepts-amount r h = ground arith

pub accepts-ids :
    (r : CreatePaymentRequest)
    → accepts r ≡ true
    → (within 3 64 r.source_account_id ≡ true) × (within 3 64 r.destination_account_id ≡ true)
unfolding accepts
accepts-ids r h = ground arith
