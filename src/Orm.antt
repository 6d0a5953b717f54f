-- ===== src/Orm.antt =====
-- shared/src/shared/db/orm_models.py: the rows of the five tables, and the database that holds them.
-- Status, direction and type columns hold the enum's member in place of its text, since the program
-- writes nothing else there. Times are microseconds.
pub mod Flush
use global_ledger_consistenc.Base.{ℕ, String, Option, List}
use global_ledger_consistenc.Int.{ℤ}
use global_ledger_consistenc.Table.{Keyed}
use global_ledger_consistenc.Contracts.{
  PaymentMethod, PaymentStatus, LedgerDirection, OutboxStatus, OutboxEventType,
}

pub record Account : Type 0 where
  pub id : String
  pub available_balance_cents : ℤ
  pub reserved_balance_cents : ℤ
  pub version : ℕ
  pub created_at : ℕ

pub record Payment : Type 0 where
  pub id : String
  pub idempotency_key : String
  pub request_hash : String
  pub source_account_id : String
  pub destination_account_id : String
  pub amount_cents : ℤ
  pub method : PaymentMethod
  pub status : PaymentStatus
  pub created_at : ℕ

pub record IdempotencyKey : Type 0 where
  pub key : String
  pub request_hash : String
  pub response_payload_json : String
  pub created_at : ℕ

pub record OutboxEvent : Type 0 where
  pub id : String
  pub aggregate_type : String
  pub aggregate_id : String
  pub event_type : OutboxEventType
  pub payload_json : String
  pub status : OutboxStatus
  pub attempts : ℕ
  pub next_retry_at : Option ℕ
  pub created_at : ℕ

pub record LedgerEntry : Type 0 where
  pub id : String
  pub payment_id : String
  pub account_id : String
  pub direction : LedgerDirection
  pub amount_cents : ℤ
  pub created_at : ℕ

pub record Db : Type 0 where
  pub accounts : List Account
  pub payments : List Payment
  pub idempotency_keys : List IdempotencyKey
  pub outbox_events : List OutboxEvent
  pub ledger_entries : List LedgerEntry

instance abbrev pub account_keyed : Keyed Account
account_keyed = record { key_of = λ a. a.id }

instance abbrev pub payment_keyed : Keyed Payment
payment_keyed = record { key_of = λ p. p.id }

instance abbrev pub key_keyed : Keyed IdempotencyKey
key_keyed = record { key_of = λ k. k.key }

instance abbrev pub event_keyed : Keyed OutboxEvent
event_keyed = record { key_of = λ e. e.id }

instance abbrev pub entry_keyed : Keyed LedgerEntry
entry_keyed = record { key_of = λ e. e.id }

-- What `session.add` was given.
pub data Row : Type 0 where
  account_row : Account → Row
  payment_row : Payment → Row
  key_row : IdempotencyKey → Row
  event_row : OutboxEvent → Row
  entry_row : LedgerEntry → Row
