-- ===== src/System/Effects.antt =====
-- What one unit of work changes, written as a plain update of the database.
use global_ledger_consistenc.Base.{String, List, ◌∷◌, Option}
use global_ledger_consistenc.Int.{ℤ}
use global_ledger_consistenc.Table.{modify}
use global_ledger_consistenc.Contracts.{
  CreatePaymentRequest, PaymentStatus, PaymentResponse, completed, reserved, received, rejected,
  OutboxEventType, payment_reserved, payment_requested,
}
use global_ledger_consistenc.Orm.{
  Account, Payment, IdempotencyKey, OutboxEvent, LedgerEntry, Db, account_keyed, payment_keyed,
  event_keyed,
}
use global_ledger_consistenc.Externals.{Externals}
use global_ledger_consistenc.Session.Entries.{EntryDraws, debit_entry, credit_entry}
use global_ledger_consistenc.Payments.UseCase.{Draws, new_payment, new_event}
use global_ledger_consistenc.Payments.Strategies.{debit_available, credit_available, reserve}
use global_ledger_consistenc.Worker.Payload.{EventPayload}
use global_ledger_consistenc.Worker.Outbox.{mark_processed}
use global_ledger_consistenc.Worker.Handlers.{with_status}

-- One account is changed, then another, or the same once more.
abbrev pub move :
    String → (Account → Account) → String → (Account → Account) → List Account → List Account
move source_id f destination_id g accounts = modify destination_id g (modify source_id f accounts)

abbrev pub post : EntryDraws → String → String → String → ℤ → List LedgerEntry → List LedgerEntry
post d payment_id source_id destination_id amount entries =
    credit_entry d payment_id source_id destination_id amount
    ∷ debit_entry d payment_id source_id destination_id amount
    ∷ entries

module _ (lib : Externals) (d : Draws) (request : CreatePaymentRequest)
    (request_hash : String) where
  abbrev pub answer : PaymentStatus → PaymentResponse
  answer status = record {
    payment_id = (new_payment d request request_hash status).id;
    status = status;
  }

  abbrev pub stored_key : PaymentStatus → IdempotencyKey
  stored_key status = record {
    key = request.idempotency_key;
    request_hash = request_hash;
    response_payload_json = lib.model_dump_json (answer status);
    created_at = d.key_at;
  }

  abbrev pub stored_event : Option String → PaymentStatus → OutboxEventType → OutboxEvent
  stored_event traceparent status event_type =
      new_event lib d (new_payment d request request_hash status).id event_type request traceparent

  -- Strong mode: the transfer is applied at once.
  abbrev pub pay_strong : Db → Db
  pay_strong db = record db {
    accounts =
        move request.source_account_id (debit_available request.amount_cents)
          request.destination_account_id (credit_available request.amount_cents) db.accounts;
    payments = new_payment d request request_hash completed ∷ db.payments;
    idempotency_keys = stored_key completed ∷ db.idempotency_keys;
    ledger_entries =
        post d.entries (new_payment d request request_hash completed).id request.source_account_id
          request.destination_account_id request.amount_cents db.ledger_entries;
  }

  -- Hybrid mode: the amount is set aside in the source account.
  abbrev pub pay_hybrid : Option String → Db → Db
  pay_hybrid traceparent db = record db {
    accounts = modify request.source_account_id (reserve request.amount_cents) db.accounts;
    payments = new_payment d request request_hash reserved ∷ db.payments;
    idempotency_keys = stored_key reserved ∷ db.idempotency_keys;
    outbox_events = stored_event traceparent reserved payment_reserved ∷ db.outbox_events;
  }

  -- Eventual mode: the request is only recorded.
  abbrev pub pay_eventual : Option String → Db → Db
  pay_eventual traceparent db = record db {
    payments = new_payment d request request_hash received ∷ db.payments;
    idempotency_keys = stored_key received ∷ db.idempotency_keys;
    outbox_events = stored_event traceparent received payment_requested ∷ db.outbox_events;
  }

module _ (d : EntryDraws) (event : OutboxEvent) (payload : EventPayload) (payment : Payment) where
  -- The worker settles a payment, taking the amount from the source account by `f`.
  abbrev pub settle : (ℤ → Account → Account) → Db → Db
  settle f db = record db {
    accounts =
        move payload.source_account_id (f payload.amount_cents) payload.destination_account_id
          (credit_available payload.amount_cents) db.accounts;
    payments = modify payment.id (with_status completed) db.payments;
    outbox_events = modify event.id mark_processed db.outbox_events;
    ledger_entries =
        post d payload.payment_id payload.source_account_id payload.destination_account_id
          payload.amount_cents db.ledger_entries;
  }

-- The worker turns an uncovered payment down.
abbrev pub turn_down : OutboxEvent → Payment → Db → Db
turn_down event payment db = record db {
  payments = modify payment.id (with_status rejected) db.payments;
  outbox_events = modify event.id mark_processed db.outbox_events;
}
