-- ===== src/Payments/Strategies.antt =====
-- payments_api/use_cases/mode_strategies.py. An assignment to an attribute of a locked account
-- changes the row with its id.
use global_ledger_consistenc.Base.{String, ◌+◌, Option}
use global_ledger_consistenc.Int.{ℤ, ◌+ℤ◌, ◌-ℤ◌}
use global_ledger_consistenc.Table.{modify}
use global_ledger_consistenc.Contracts.{
  ConsistencyMode, strong, hybrid, eventual, CreatePaymentRequest, PaymentResponse, completed,
  reserved, received, payment_reserved, payment_requested,
}
use global_ledger_consistenc.Orm.{Account, Db, account_keyed}
use global_ledger_consistenc.Externals.{Externals}
use global_ledger_consistenc.Session.{pure, update, ◌>>=◌, ◌>>◌}
use global_ledger_consistenc.Session.Entries.{add_ledger_entries}
use global_ledger_consistenc.Payments.{ApiAction}
use global_ledger_consistenc.Payments.UseCase.{
  Draws, lock_accounts, validate_funds, create_payment, add_outbox,
}

abbrev pub in_account : String → (Account → Account) → Db → Db
in_account id f db = record db { accounts = modify id f db.accounts }

abbrev pub debit_available : ℤ → Account → Account
debit_available amount a = record a {
  available_balance_cents = a.available_balance_cents -ℤ amount;
  version = a.version + 1;
}

abbrev pub credit_available : ℤ → Account → Account
credit_available amount a = record a {
  available_balance_cents = a.available_balance_cents +ℤ amount;
  version = a.version + 1;
}

abbrev pub reserve : ℤ → Account → Account
reserve amount a = record a {
  available_balance_cents = a.available_balance_cents -ℤ amount;
  reserved_balance_cents = a.reserved_balance_cents +ℤ amount;
  version = a.version + 1;
}

module _ (lib : Externals) (d : Draws) where
  -- `StrongModeStrategy.execute`
  unfoldable pub strong_execute : CreatePaymentRequest → String → ApiAction PaymentResponse
  unfolding lock_accounts validate_funds create_payment add_ledger_entries
  strong_execute request request_hash = do
    locked ← lock_accounts request.source_account_id request.destination_account_id
    validate_funds locked.0 request.amount_cents
    update (in_account locked.0.id (debit_available request.amount_cents))
    update (in_account locked.1.id (credit_available request.amount_cents))
    payment_id ← create_payment d request request_hash completed
    add_ledger_entries d.entries payment_id request.source_account_id request.destination_account_id
        request.amount_cents
    pure (record { payment_id = payment_id; status = completed })

  -- `HybridModeStrategy.execute`
  unfoldable pub hybrid_execute :
      CreatePaymentRequest → String → Option String → ApiAction PaymentResponse
  unfolding lock_accounts validate_funds create_payment add_outbox
  hybrid_execute request request_hash traceparent = do
    locked ← lock_accounts request.source_account_id request.destination_account_id
    validate_funds locked.0 request.amount_cents
    update (in_account locked.0.id (reserve request.amount_cents))
    payment_id ← create_payment d request request_hash reserved
    add_outbox lib d payment_id payment_reserved request traceparent
    pure (record { payment_id = payment_id; status = reserved })

  -- `EventualModeStrategy.execute`
  unfoldable pub eventual_execute :
      CreatePaymentRequest → String → Option String → ApiAction PaymentResponse
  unfolding create_payment add_outbox
  eventual_execute request request_hash traceparent = do
    payment_id ← create_payment d request request_hash received
    add_outbox lib d payment_id payment_requested request traceparent
    pure (record { payment_id = payment_id; status = received })

  -- `_execute_mode`
  unfoldable pub execute_mode :
      ConsistencyMode → CreatePaymentRequest → String → Option String → ApiAction PaymentResponse
  unfolding strong_execute hybrid_execute eventual_execute
  execute_mode strong request request_hash traceparent = strong_execute request request_hash
  execute_mode hybrid request request_hash traceparent =
      hybrid_execute request request_hash traceparent
  execute_mode eventual request request_hash traceparent =
      eventual_execute request request_hash traceparent
