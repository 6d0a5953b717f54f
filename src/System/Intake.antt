-- ===== src/System/Intake.antt =====
-- payments-api as a maker of commits: what the body of a payment's transaction leaves for the commit.
pub mod Commits
pub mod Creates
pub mod Refines
use global_ledger_consistenc.Base.{
  String, Bool, true, false, ◌≡◌, refl, inl, inr, Option, none, some, List, [], ◌∷◌, arith, ◌==◌,
  Option-cases, Bool-cases, ◌⊎◌, ◌≢◌,
}
use global_ledger_consistenc.Int.{ltb_ℤ, ◌≤ℤ◌}
use global_ledger_consistenc.Table.{get, has, key_of-get}
use global_ledger_consistenc.Contracts.{
  CreatePaymentRequest, completed, reserved, received, payment_reserved, payment_requested, strong,
  hybrid, eventual, PaymentStatus, ConsistencyMode,
}
use global_ledger_consistenc.Orm.{
  Account, Payment, OutboxEvent, IdempotencyKey, LedgerEntry, Db, Row, payment_row, key_row,
  event_row, entry_row, account_keyed, payment_keyed, key_keyed, event_keyed, entry_keyed,
}
use global_ledger_consistenc.Orm.Flush.{flush, has_idempotency_key}
use global_ledger_consistenc.Externals.{Externals}
use global_ledger_consistenc.Session.{Session, Result, ok, err}
use global_ledger_consistenc.Session.Transaction.{Conditions, begin, leave}
use global_ledger_consistenc.Session.Accounts.{lock_pair, lock_pair_found, lock_pair_missing}
use global_ledger_consistenc.Session.Entries.{EntryDraws, debit_entry, credit_entry}
use global_ledger_consistenc.Payments.{Raised, Metrics, domain, integrity_error, sqlalchemy_error}
use global_ledger_consistenc.Payments.UseCase.{
  Draws, new_payment, lock_accounts, unknown_account, no_funds,
}
use global_ledger_consistenc.Payments.CreatePayment.{create}
use global_ledger_consistenc.System.Effects.{
  answer, stored_key, stored_event, pay_strong, pay_hybrid, pay_eventual, post,
}
use global_ledger_consistenc.System.Steps.{
  Reach, here, next, Step, IsProper, IsNewPayment, strong_paid, hybrid_paid, eventual_paid,
}
use global_ledger_consistenc.Payments.Strategies.{reserve, debit_available, credit_available}
use global_ledger_consistenc.System.Effects.{move}
use global_ledger_consistenc.Table.{modify}

-- A session at the start of a unit of work.
abbrev pub fresh : {M : Type 0} → Db → M → Session M
fresh db m = record { committed = db; db = db; pending = []; metrics = m }

module _ (lib : Externals) (c : Conditions) (d : Draws) (r : CreatePaymentRequest) (hash : String)
    (t : Option String) (db : Db) (m : Metrics) where
  pub create_strong_ok :
      (a b : Account)
      → get r.source_account_id (c.others db).accounts ≡ some a
      → get r.destination_account_id (c.others db).accounts ≡ some b
      → ltb_ℤ a.available_balance_cents r.amount_cents ≡ false
      → create lib strong c d r hash t (fresh db m) ≡ (
        ok (answer lib d r hash completed, true),
        record {
          committed = c.others db;
          db = record (c.others db) {
            accounts =
                move r.source_account_id
                  (debit_available r.amount_cents)
                  r.destination_account_id
                  (credit_available r.amount_cents)
                  (c.others db).accounts;
          };
          pending =
              payment_row (new_payment d r hash completed)
              ∷ entry_row (
                  debit_entry d.entries
                    (new_payment d r hash completed).id
                    r.source_account_id
                    r.destination_account_id
                    r.amount_cents)
              ∷ entry_row (
                  credit_entry d.entries
                    (new_payment d r hash completed).id
                    r.source_account_id
                    r.destination_account_id
                    r.amount_cents)
              ∷ key_row (stored_key lib d r hash completed)
              ∷ [];
          metrics = m;
        },
      )
  unfolding create new_payment
  create_strong_ok a b ha hb hc = ground (
    arith,
    key_of-get r.source_account_id a (c.others db).accounts ha,
    key_of-get r.destination_account_id b (c.others db).accounts hb,
    lock_pair_found {M = Metrics} (domain unknown_account) Raised.key_error r.source_account_id
        r.destination_account_id a b (fresh (c.others db) m) ha hb,
  )

  pub create_hybrid_ok :
      (a b : Account)
      → get r.source_account_id (c.others db).accounts ≡ some a
      → get r.destination_account_id (c.others db).accounts ≡ some b
      → ltb_ℤ a.available_balance_cents r.amount_cents ≡ false
      → create lib hybrid c d r hash t (fresh db m) ≡ (
        ok (answer lib d r hash reserved, true),
        record {
          committed = c.others db;
          db = record (c.others db) {
            accounts = modify r.source_account_id (reserve r.amount_cents) (c.others db).accounts;
          };
          pending =
              payment_row (new_payment d r hash reserved)
              ∷ event_row (stored_event lib d r hash t reserved payment_reserved)
              ∷ key_row (stored_key lib d r hash reserved)
              ∷ [];
          metrics = m;
        },
      )
  unfolding create new_payment
  create_hybrid_ok a b ha hb hc = ground (
    arith,
    key_of-get r.source_account_id a (c.others db).accounts ha,
    lock_pair_found {M = Metrics} (domain unknown_account) Raised.key_error r.source_account_id
        r.destination_account_id a b (fresh (c.others db) m) ha hb,
  )

  pub create_eventual_ok : create lib eventual c d r hash t (fresh db m) ≡ (
    ok (answer lib d r hash received, true),
    record {
      committed = c.others db;
      db = c.others db;
      pending =
          payment_row (new_payment d r hash received)
          ∷ event_row (stored_event lib d r hash t received payment_requested)
          ∷ key_row (stored_key lib d r hash received)
          ∷ [];
      metrics = m;
    },
  )
  unfolding create new_payment
  create_eventual_ok = refl

  -- Where the mode locks accounts, each must exist and the source must cover the amount.
  pub create_refused :
      (mode : ConsistencyMode)
      → mode ≢ eventual
      → (get r.source_account_id (c.others db).accounts ≡ none)
        ⊎ (get r.destination_account_id (c.others db).accounts ≡ none)
      → create lib mode c d r hash t (fresh db m)
        ≡ (err (domain unknown_account), fresh (c.others db) m)
  unfolding create
  create_refused strong ne h = ground (
    arith,
    lock_pair_missing {M = Metrics} (domain unknown_account) Raised.key_error r.source_account_id
        r.destination_account_id (fresh (c.others db) m) h,
  )
  create_refused hybrid ne h = ground (
    arith,
    lock_pair_missing {M = Metrics} (domain unknown_account) Raised.key_error r.source_account_id
        r.destination_account_id (fresh (c.others db) m) h,
  )
  create_refused eventual ne h = absurd (ne refl)

  pub create_uncovered :
      (mode : ConsistencyMode) (a b : Account)
      → mode ≢ eventual
      → get r.source_account_id (c.others db).accounts ≡ some a
      → get r.destination_account_id (c.others db).accounts ≡ some b
      → ltb_ℤ a.available_balance_cents r.amount_cents ≡ true
      → create lib mode c d r hash t (fresh db m) ≡ (err (domain no_funds), fresh (c.others db) m)
  unfolding create
  create_uncovered strong a b ne ha hb hc = ground (
    arith,
    lock_pair_found {M = Metrics} (domain unknown_account) Raised.key_error r.source_account_id
        r.destination_account_id a b (fresh (c.others db) m) ha hb,
  )
  create_uncovered hybrid a b ne ha hb hc = ground (
    arith,
    lock_pair_found {M = Metrics} (domain unknown_account) Raised.key_error r.source_account_id
        r.destination_account_id a b (fresh (c.others db) m) ha hb,
  )
  create_uncovered eventual a b ne ha hb hc = absurd (ne refl)

-- What a commit inserts, and what it found free.
pub flush_strong :
    (p : Payment) (e e' : LedgerEntry) (k : IdempotencyKey) (db db' : Db)
    → flush (payment_row p ∷ entry_row e ∷ entry_row e' ∷ key_row k ∷ []) db ≡ some db'
    → (has p.id db.payments ≡ false)
      × (has_idempotency_key p.idempotency_key db.payments ≡ false)
      × (has k.key db.idempotency_keys ≡ false)
      × (db' ≡ record db {
        payments = p ∷ db.payments;
        ledger_entries = e' ∷ e ∷ db.ledger_entries;
        idempotency_keys = k ∷ db.idempotency_keys;
      })
unfolding flush
flush_strong p e e' k db db' h = ground arith

pub flush_async :
    (p : Payment) (e : OutboxEvent) (k : IdempotencyKey) (db db' : Db)
    → flush (payment_row p ∷ event_row e ∷ key_row k ∷ []) db ≡ some db'
    → (has p.id db.payments ≡ false)
      × (has_idempotency_key p.idempotency_key db.payments ≡ false)
      × (has k.key db.idempotency_keys ≡ false)
      × (has e.id db.outbox_events ≡ false)
      × (db' ≡ record db {
        payments = p ∷ db.payments;
        outbox_events = e ∷ db.outbox_events;
        idempotency_keys = k ∷ db.idempotency_keys;
      })
unfolding flush
flush_async p e k db db' h = ground arith
