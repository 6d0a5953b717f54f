-- ===== src/System/Steps.antt =====
-- The commits that the system can make, one constructor for each kind of unit of work, and its runs.
use global_ledger_consistenc.Base.{ℕ, String, Bool, true, false, ◌≡◌, Option, some, ◌==◌}
use global_ledger_consistenc.Int.{◌≤ℤ◌, ltb_ℤ}
use global_ledger_consistenc.Table.{get, has}
use global_ledger_consistenc.Contracts.{
  CreatePaymentRequest, accepts, completed, reserved, received, payment_reserved, payment_requested,
}
use global_ledger_consistenc.Orm.{
  Account, Payment, OutboxEvent, Db, account_keyed, payment_keyed, key_keyed, event_keyed,
  entry_keyed,
}
use global_ledger_consistenc.Orm.Flush.{has_idempotency_key}
use global_ledger_consistenc.Externals.{Externals}
use global_ledger_consistenc.Session.{ok}
use global_ledger_consistenc.Session.Entries.{EntryDraws}
use global_ledger_consistenc.Payments.UseCase.{Draws, new_payment}
use global_ledger_consistenc.Worker.Payload.{EventPayload, parse_payload}
use global_ledger_consistenc.Worker.Outbox.{
  in_event, mark_processed, mark_retry, fetch_batch_for_processing,
}
use global_ledger_consistenc.Worker.Handlers.{is_settled, debit_reserved}
use global_ledger_consistenc.Payments.Strategies.{debit_available}
use global_ledger_consistenc.Worker.Processor.{kill}
use global_ledger_consistenc.System.Effects.{
  pay_strong, pay_hybrid, pay_eventual, stored_event, settle, turn_down,
}

-- The unique columns of a new payment and of its idempotency key are not taken.
pub record IsNewPayment (p : Payment) (db : Db) : Type 0 where
  pub id : has p.id db.payments ≡ false
  pub payment_key : has_idempotency_key p.idempotency_key db.payments ≡ false
  pub key : has p.idempotency_key db.idempotency_keys ≡ false

-- A request that reaches the use case's transaction.
pub record IsProper (request : CreatePaymentRequest) : Type 0 where
  pub accepted : accepts request ≡ true
  pub differ : (request.source_account_id == request.destination_account_id) ≡ false

-- An event that the worker loaded, with its payload and the payment that is still open.
pub record IsOpen (lib : Externals) (event : OutboxEvent) (payload : EventPayload)
    (payment : Payment) (db : Db) : Type 0 where
  pub loaded : get event.id db.outbox_events ≡ some event
  pub parsed : parse_payload lib event.payload_json ≡ ok payload
  pub found : get payload.payment_id db.payments ≡ some payment
  pub unsettled : is_settled payment.status ≡ false

-- An event whose payment is settled already.
pub record IsRepeated (lib : Externals) (event : OutboxEvent) (payload : EventPayload)
    (payment : Payment) (db : Db) : Type 0 where
  pub loaded : get event.id db.outbox_events ≡ some event
  pub parsed : parse_payload lib event.payload_json ≡ ok payload
  pub found : get payload.payment_id db.payments ≡ some payment
  pub settled : is_settled payment.status ≡ true

-- A worker in strong mode closes every event unseen, which is `dropped`.
pub data Step (lib : Externals) : Db → Db → Type 0 where
  strong_paid :
      (d : Draws) (request : CreatePaymentRequest) (request_hash : String) (a b : Account) (db : Db)
      → IsProper request
      → get request.source_account_id db.accounts ≡ some a
      → get request.destination_account_id db.accounts ≡ some b
      → request.amount_cents ≤ℤ a.available_balance_cents
      → IsNewPayment (new_payment d request request_hash completed) db
      → Step lib db (pay_strong lib d request request_hash db)
  hybrid_paid :
      (d : Draws) (request : CreatePaymentRequest) (request_hash : String)
      (traceparent : Option String) (a b : Account) (db : Db)
      → IsProper request
      → get request.source_account_id db.accounts ≡ some a
      → get request.destination_account_id db.accounts ≡ some b
      → request.amount_cents ≤ℤ a.available_balance_cents
      → IsNewPayment (new_payment d request request_hash reserved) db
      → has
          (stored_event lib d request request_hash traceparent reserved payment_reserved).id
          db.outbox_events
        ≡ false
      → Step lib db (pay_hybrid lib d request request_hash traceparent db)
  eventual_paid :
      (d : Draws) (request : CreatePaymentRequest) (request_hash : String)
      (traceparent : Option String) (db : Db)
      → IsProper request
      → IsNewPayment (new_payment d request request_hash received) db
      → has
          (stored_event lib d request request_hash traceparent received payment_requested).id
          db.outbox_events
        ≡ false
      → Step lib db (pay_eventual lib d request request_hash traceparent db)
  leased :
      (now processing_timeout batch_size : ℕ) (locked : String → Bool) (db : Db)
      → Step lib db (fetch_batch_for_processing lib now locked batch_size processing_timeout db)
  reserved_settled :
      (d : EntryDraws) (event : OutboxEvent) (payload : EventPayload) (payment : Payment)
      (a b : Account) (db : Db)
      → event.event_type ≡ payment_reserved
      → IsOpen lib event payload payment db
      → get payload.source_account_id db.accounts ≡ some a
      → get payload.destination_account_id db.accounts ≡ some b
      → payload.amount_cents ≤ℤ a.reserved_balance_cents
      → Step lib db (settle d event payload payment debit_reserved db)
  request_settled :
      (d : EntryDraws) (event : OutboxEvent) (payload : EventPayload) (payment : Payment)
      (a b : Account) (db : Db)
      → event.event_type ≡ payment_requested
      → IsOpen lib event payload payment db
      → get payload.source_account_id db.accounts ≡ some a
      → get payload.destination_account_id db.accounts ≡ some b
      → payload.amount_cents ≤ℤ a.available_balance_cents
      → Step lib db (settle d event payload payment debit_available db)
  request_rejected :
      (event : OutboxEvent) (payload : EventPayload) (payment : Payment) (a : Account) (db : Db)
      → event.event_type ≡ payment_requested
      → IsOpen lib event payload payment db
      → get payload.source_account_id db.accounts ≡ some a
      → ltb_ℤ a.available_balance_cents payload.amount_cents ≡ true
      → Step lib db (turn_down event payment db)
  redelivered :
      (event : OutboxEvent) (payload : EventPayload) (payment : Payment) (db : Db)
      → IsRepeated lib event payload payment db
      → Step lib db (in_event event.id mark_processed db)
  dropped :
      (event : OutboxEvent) (db : Db)
      → get event.id db.outbox_events ≡ some event
      → Step lib db (in_event event.id mark_processed db)
  retried :
      (event : OutboxEvent) (at : ℕ) (db : Db)
      → get event.id db.outbox_events ≡ some event
      → Step lib db (in_event event.id (mark_retry at) db)
  killed :
      (event : OutboxEvent) (db : Db)
      → get event.id db.outbox_events ≡ some event
      → Step lib db (in_event event.id kill db)

-- A run: any number of commits, by any mix of processes, in any order.
pub data Reach (lib : Externals) (db : Db) : Db → Type 0 where
  here : Reach lib db db
  next : {db' db'' : Db} → Reach lib db db' → Step lib db' db'' → Reach lib db db''

pub Reach-trans : {lib : Externals} {a b c : Db} → Reach lib a b → Reach lib b c → Reach lib a c
Reach-trans r here = r
Reach-trans r (next q st) = next (Reach-trans r q) st
