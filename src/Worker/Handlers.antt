-- ===== src/Worker/Handlers.antt =====
-- ledger_worker/services/processor.py and mode_strategies.py: the handlers of one event. The values
-- of `event`, `payment` and the accounts are those that were loaded; assignments go to their rows.
use global_ledger_consistenc.Base.{◌+◌, String, Bool, true, false, if◌then◌else◌}
use global_ledger_consistenc.Int.{ℤ, ◌-ℤ◌, ltb_ℤ}
use global_ledger_consistenc.Table.{get, modify}
use global_ledger_consistenc.Contracts.{
  ConsistencyMode, strong, hybrid, eventual, PaymentStatus, completed, rejected, payment_reserved,
  payment_requested, invariant_violation, WorkerMessage, payment_not_found,
  reserved_funds_below_amount, no_account, unexpected_event,
}
use global_ledger_consistenc.Orm.{
  Account, Payment, OutboxEvent, Db, account_keyed, payment_keyed, event_keyed,
}
use global_ledger_consistenc.Session.{raise, raise_if, or_raise, read, update, count, ◌>>=◌, ◌>>◌}
use global_ledger_consistenc.Session.Accounts.{lock_pair}
use global_ledger_consistenc.Session.Entries.{EntryDraws, add_ledger_entries}
use global_ledger_consistenc.Payments.Strategies.{in_account, debit_available, credit_available}
use global_ledger_consistenc.Worker.{Raised, worker, exception, Metrics, WorkerAction}
use global_ledger_consistenc.Worker.Payload.{EventPayload}
use global_ledger_consistenc.Worker.Outbox.{in_event, mark_processed}

abbrev pub violation : WorkerMessage → Raised
violation message = worker (record { error_code = invariant_violation; message = message })

-- `_lock_accounts`; its dict always has both keys.
unfoldable pub lock_accounts : String → String → WorkerAction (Account × Account)
lock_accounts = lock_pair (violation no_account) exception

-- `payment.status in [COMPLETED, REJECTED]`
abbrev pub is_settled : PaymentStatus → Bool
is_settled completed = true
is_settled rejected = true
is_settled _ = false

abbrev pub in_payment : String → (Payment → Payment) → Db → Db
in_payment id f db = record db { payments = modify id f db.payments }

abbrev pub with_status : PaymentStatus → Payment → Payment
with_status status p = record p { status = status }

abbrev pub debit_reserved : ℤ → Account → Account
debit_reserved amount a = record a {
  reserved_balance_cents = a.reserved_balance_cents -ℤ amount;
  version = a.version + 1;
}

abbrev pub processed_one : Metrics → Metrics
processed_one m = record m { payments_processed = m.payments_processed + 1 }

module _ (d : EntryDraws) (event : OutboxEvent) (payload : EventPayload) where
  abbrev pub finish : WorkerAction (Unit {0})
  finish = update (in_event event.id mark_processed)

  -- The second half of `_handle_hybrid_event`, once the payment is open.
  unfoldable pub settle_reserved : Payment → WorkerAction (Unit {0})
  unfolding lock_accounts add_ledger_entries
  settle_reserved payment = do
    locked ← lock_accounts payload.source_account_id payload.destination_account_id
    raise_if (ltb_ℤ locked.0.reserved_balance_cents payload.amount_cents)
        (violation reserved_funds_below_amount)
    update (in_account locked.0.id (debit_reserved payload.amount_cents))
    update (in_account locked.1.id (credit_available payload.amount_cents))
    update (in_payment payment.id (with_status completed))
    add_ledger_entries d payload.payment_id payload.source_account_id payload.destination_account_id
        payload.amount_cents
    finish
    count processed_one

  -- `_handle_hybrid_event`
  unfoldable pub handle_hybrid_event : WorkerAction (Unit {0})
  unfolding settle_reserved
  handle_hybrid_event = do
    db ← read
    payment ← or_raise (get payload.payment_id db.payments) (violation payment_not_found)
    if is_settled payment.status then finish else settle_reserved payment

  -- The branch of `_handle_eventual_event` on an uncovered amount.
  unfoldable pub reject : Payment → WorkerAction (Unit {0})
  reject payment = do
    update (in_payment payment.id (with_status rejected))
    finish
    count processed_one

  unfoldable pub transfer : Payment → Account → Account → WorkerAction (Unit {0})
  unfolding add_ledger_entries
  transfer payment source destination = do
    update (in_account source.id (debit_available payload.amount_cents))
    update (in_account destination.id (credit_available payload.amount_cents))
    update (in_payment payment.id (with_status completed))
    add_ledger_entries d payload.payment_id payload.source_account_id payload.destination_account_id
        payload.amount_cents
    finish
    count processed_one

  unfoldable pub settle_requested : Payment → WorkerAction (Unit {0})
  unfolding lock_accounts reject transfer
  settle_requested payment = do
    locked ← lock_accounts payload.source_account_id payload.destination_account_id
    (if ltb_ℤ locked.0.available_balance_cents payload.amount_cents
        then reject payment
        else transfer payment locked.0 locked.1)

  -- `_handle_eventual_event`
  unfoldable pub handle_eventual_event : WorkerAction (Unit {0})
  unfolding settle_requested
  handle_eventual_event = do
    db ← read
    payment ← or_raise (get payload.payment_id db.payments) (violation payment_not_found)
    if is_settled payment.status then finish else settle_requested payment

  abbrev on_type : WorkerAction (Unit {0}) → WorkerAction (Unit {0}) → WorkerAction (Unit {0})
  on_type on_reserved on_requested = elim event.event_type [
    | payment_reserved ↦ on_reserved
    | payment_requested ↦ on_requested
  ]

  -- The `process` methods of mode_strategies.py.
  unfoldable pub process : ConsistencyMode → WorkerAction (Unit {0})
  unfolding handle_hybrid_event handle_eventual_event
  process strong = finish
  process hybrid =
      on_type handle_hybrid_event (raise (violation (unexpected_event payment_requested)))
  process eventual =
      on_type (raise (violation (unexpected_event payment_reserved))) handle_eventual_event
