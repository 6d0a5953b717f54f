-- ===== src/Payments/UseCase.antt =====
-- payments_api/use_cases/create_payment.py: the steps that the mode strategies are built from.
use Prim.Native.String.{◌++◌}
use global_ledger_consistenc.Base.{ℕ, String, Option, none, some}
use global_ledger_consistenc.Int.{ℤ, ltb_ℤ}
use global_ledger_consistenc.Contracts.{
  PaymentStatus, OutboxEventType, CreatePaymentRequest, invalid_payment, insufficient_funds,
  account_not_found, funds, pending,
}
use global_ledger_consistenc.Orm.{Account, Payment, OutboxEvent, payment_row, event_row}
use global_ledger_consistenc.Externals.{Externals, Json, Fields, field, end}
use global_ledger_consistenc.Session.{pure, add, raise_if, ◌>>◌}
use global_ledger_consistenc.Session.Accounts.{lock_pair}
use global_ledger_consistenc.Session.Entries.{EntryDraws}
use global_ledger_consistenc.Payments.{DomainError, domain, key_error, ApiAction}

-- What one call draws: `uuid4().hex` for each row, and the clock's readings at the flush.
pub record Draws : Type 0 where
  pub payment_hex : String
  pub event_hex : String
  pub payment_at : ℕ
  pub event_at : ℕ
  pub key_at : ℕ
  pub entries : EntryDraws

abbrev pub unknown_account : DomainError
unknown_account = record {
  error_code = invalid_payment;
  message = account_not_found;
  http_status = 422;
}

abbrev pub no_funds : DomainError
no_funds = record { error_code = insufficient_funds; message = funds; http_status = 422 }

-- `_lock_accounts`
unfoldable pub lock_accounts : String → String → ApiAction (Account × Account)
lock_accounts = lock_pair (domain unknown_account) key_error

-- `_validate_funds`
unfoldable pub validate_funds : Account → ℤ → ApiAction (Unit {0})
validate_funds source amount_cents =
    raise_if (ltb_ℤ source.available_balance_cents amount_cents) (domain no_funds)

-- The row that `_create_payment` adds.
unfoldable pub new_payment : Draws → CreatePaymentRequest → String → PaymentStatus → Payment
new_payment d request request_hash status = record {
  id = "pay-" ++ d.payment_hex;
  idempotency_key = request.idempotency_key;
  request_hash = request_hash;
  source_account_id = request.source_account_id;
  destination_account_id = request.destination_account_id;
  amount_cents = request.amount_cents;
  method = request.method;
  status = status;
  created_at = d.payment_at;
}

-- `_create_payment`
unfoldable pub create_payment :
    Draws → CreatePaymentRequest → String → PaymentStatus → ApiAction String
unfolding new_payment
create_payment d request request_hash status = do
  add (payment_row (new_payment d request request_hash status))
  pure ("pay-" ++ d.payment_hex)

abbrev pub optional_str : Option String → Json
optional_str none = Json.null
optional_str (some t) = Json.str t

-- The dict that `_add_outbox` serialises.
abbrev pub outbox_payload : String → String → String → ℤ → Option String → Fields
outbox_payload payment_id source_id destination_id amount_cents traceparent =
    field "payment_id" (Json.str payment_id) (
      field "source_account_id" (Json.str source_id) (
        field "destination_account_id" (Json.str destination_id) (
          field "amount_cents" (Json.int amount_cents)
            (field "traceparent" (optional_str traceparent) end))))

module _ (lib : Externals) (d : Draws) where
  -- The row that `_add_outbox` adds.
  unfoldable pub new_event :
      String → OutboxEventType → CreatePaymentRequest → Option String → OutboxEvent
  new_event payment_id event_type request traceparent = record {
    id = "evt-" ++ d.event_hex;
    aggregate_type = "payment";
    aggregate_id = payment_id;
    event_type = event_type;
    payload_json = lib.dumps (
        Json.object (
          outbox_payload payment_id request.source_account_id request.destination_account_id
            request.amount_cents traceparent));
    status = pending;
    attempts = 0;
    next_retry_at = none;
    created_at = d.event_at;
  }

  -- `_add_outbox`
  unfoldable pub add_outbox :
      String → OutboxEventType → CreatePaymentRequest → Option String → ApiAction (Unit {0})
  unfolding new_event
  add_outbox payment_id event_type request traceparent =
      add (event_row (new_event payment_id event_type request traceparent))
