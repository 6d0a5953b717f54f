-- ===== src/System/Work.antt =====
-- ledger-worker as a maker of commits: what the handling of one event leaves for the commit.
pub mod Refines
use global_ledger_consistenc.Base.{
  ℕ, String, Bool, true, false, ◌≡◌, refl, inl, inr, Option, none, some, List, [], ◌∷◌, arith, ◌==◌,
  Option-cases, Bool-cases, ◌⊎◌, ◌≢◌,
}
use global_ledger_consistenc.Int.{ℤ, ltb_ℤ, ◌≤ℤ◌}
use global_ledger_consistenc.Table.{get, modify, key_of-get}
use global_ledger_consistenc.Contracts.{
  ConsistencyMode, strong, hybrid, eventual, OutboxEventType, payment_reserved, payment_requested,
  unexpected_event, completed, rejected, no_account, reserved_funds_below_amount, payment_not_found,
}
use global_ledger_consistenc.Orm.{
  Account, Payment, OutboxEvent, LedgerEntry, Db, Row, entry_row, account_keyed, payment_keyed,
  event_keyed, entry_keyed,
}
use global_ledger_consistenc.Orm.Flush.{flush}
use global_ledger_consistenc.Session.{Session, Result, ok, err}
use global_ledger_consistenc.Session.Accounts.{lock_pair, lock_pair_found, lock_pair_missing}
use global_ledger_consistenc.Session.Entries.{EntryDraws, debit_entry, credit_entry}
use global_ledger_consistenc.Payments.Strategies.{debit_available, credit_available}
use global_ledger_consistenc.Worker.{Raised, Metrics, exception}
use global_ledger_consistenc.Worker.Payload.{EventPayload}
use global_ledger_consistenc.Worker.Outbox.{in_event, mark_processed}
use global_ledger_consistenc.Worker.Handlers.{
  violation, is_settled, with_status, debit_reserved, processed_one, settle_reserved,
  settle_requested, handle_hybrid_event, handle_eventual_event, process,
}
use global_ledger_consistenc.System.Effects.{move, turn_down}
use global_ledger_consistenc.System.Intake.{fresh}

module _ (d : EntryDraws) (event : OutboxEvent) (p : EventPayload) (pay : Payment) (db : Db)
    (m : Metrics) where
  -- The session when a handler has applied the transfer, taking from the source by `f`.
  abbrev pub applied : (ℤ → Account → Account) → Session Metrics
  applied f = record {
    committed = db;
    db = record db {
      accounts =
          move p.source_account_id (f p.amount_cents) p.destination_account_id
            (credit_available p.amount_cents) db.accounts;
      payments = modify pay.id (with_status completed) db.payments;
      outbox_events = modify event.id mark_processed db.outbox_events;
    };
    pending =
        entry_row
          (debit_entry d p.payment_id p.source_account_id p.destination_account_id p.amount_cents)
        ∷ entry_row (
            credit_entry d p.payment_id p.source_account_id p.destination_account_id p.amount_cents)
        ∷ [];
    metrics = processed_one m;
  }

  pub settle_missing :
      (get p.source_account_id db.accounts ≡ none)
        ⊎ (get p.destination_account_id db.accounts ≡ none)
      → (settle_reserved d event p pay (fresh db m) ≡ (err (violation no_account), fresh db m))
        × (settle_requested d event p pay (fresh db m) ≡ (err (violation no_account), fresh db m))
  unfolding settle_reserved settle_requested
  settle_missing h =
      let e =
        lock_pair_missing {M = Metrics} (violation no_account) exception p.source_account_id
          p.destination_account_id (fresh db m) h in
      (ground (arith, e), ground (arith, e))

  module _ (a b : Account) (ha : get p.source_account_id db.accounts ≡ some a)
      (hb : get p.destination_account_id db.accounts ≡ some b) where
    locks :
        lock_pair {M = Metrics}
          (violation no_account)
          exception
          p.source_account_id
          p.destination_account_id
          (fresh db m)
        ≡ (ok (a, b), fresh db m)
    locks =
        lock_pair_found (violation no_account) exception p.source_account_id
          p.destination_account_id a b (fresh db m) ha hb

    pub settle_reserved_ok :
        ltb_ℤ a.reserved_balance_cents p.amount_cents ≡ false
        → settle_reserved d event p pay (fresh db m) ≡ (ok tt, applied debit_reserved)
    unfolding settle_reserved
    settle_reserved_ok h = ground (
      arith,
      locks,
      key_of-get p.source_account_id a db.accounts ha,
      key_of-get p.destination_account_id b db.accounts hb,
    )

    pub settle_reserved_short :
        ltb_ℤ a.reserved_balance_cents p.amount_cents ≡ true
        → settle_reserved d event p pay (fresh db m)
          ≡ (err (violation reserved_funds_below_amount), fresh db m)
    unfolding settle_reserved
    settle_reserved_short h = ground (arith, locks)

    pub settle_requested_ok :
        ltb_ℤ a.available_balance_cents p.amount_cents ≡ false
        → settle_requested d event p pay (fresh db m) ≡ (ok tt, applied debit_available)
    unfolding settle_requested
    settle_requested_ok h = ground (
      arith,
      locks,
      key_of-get p.source_account_id a db.accounts ha,
      key_of-get p.destination_account_id b db.accounts hb,
    )

    pub settle_requested_short :
        ltb_ℤ a.available_balance_cents p.amount_cents ≡ true
        → settle_requested d event p pay (fresh db m) ≡ (
          ok tt,
          record {
            committed = db;
            db = turn_down event pay db;
            pending = [];
            metrics = processed_one m;
          },
        )
    unfolding settle_requested
    settle_requested_short h = ground (arith, locks)

-- What a commit inserts.
pub flush_entries :
    (e e' : LedgerEntry) (db db' : Db)
    → flush (entry_row e ∷ entry_row e' ∷ []) db ≡ some db'
    → db' ≡ record db { ledger_entries = e' ∷ e ∷ db.ledger_entries }
unfolding flush
flush_entries e e' db db' h = ground arith

-- How each handler goes on from the payment that it loads.
module _ (d : EntryDraws) (event : OutboxEvent) (p : EventPayload) (db : Db) (m : Metrics) where
  pub handlers_no_payment :
      get p.payment_id db.payments ≡ none
      → (handle_hybrid_event d event p (fresh db m)
          ≡ (err (violation payment_not_found), fresh db m))
        × (handle_eventual_event d event p (fresh db m)
            ≡ (err (violation payment_not_found), fresh db m))
  unfolding handle_hybrid_event handle_eventual_event
  handlers_no_payment h = (ground (arith, h), ground (arith, h))

  -- The payment was settled before: only the event is marked.
  abbrev pub already : Session Metrics
  already = record {
    committed = db;
    db = in_event event.id mark_processed db;
    pending = [];
    metrics = m;
  }

  pub handlers_settled :
      (pay : Payment)
      → get p.payment_id db.payments ≡ some pay
      → is_settled pay.status ≡ true
      → (handle_hybrid_event d event p (fresh db m) ≡ (ok tt, already))
        × (handle_eventual_event d event p (fresh db m) ≡ (ok tt, already))
  unfolding handle_hybrid_event handle_eventual_event
  handlers_settled pay h k = (ground (arith, h, k), ground (arith, h, k))

  pub handlers_open :
      (pay : Payment)
      → get p.payment_id db.payments ≡ some pay
      → is_settled pay.status ≡ false
      → (handle_hybrid_event d event p (fresh db m) ≡ settle_reserved d event p pay (fresh db m))
        × (handle_eventual_event d event p (fresh db m)
            ≡ settle_requested d event p pay (fresh db m))
  unfolding handle_hybrid_event handle_eventual_event
  handlers_open pay h k = (ground (arith, h, k), ground (arith, h, k))

  pub process_hybrid_reserved :
      event.event_type ≡ payment_reserved
      → process d event p hybrid (fresh db m) ≡ handle_hybrid_event d event p (fresh db m)
  unfolding process
  process_hybrid_reserved h = ground (arith, h)

  pub process_eventual_requested :
      event.event_type ≡ payment_requested
      → process d event p eventual (fresh db m) ≡ handle_eventual_event d event p (fresh db m)
  unfolding process
  process_eventual_requested h = ground (arith, h)

  pub process_unexpected :
      (mode : ConsistencyMode) (t : OutboxEventType)
      → event.event_type ≡ t
      → ((mode ≡ hybrid) × (t ≡ payment_requested)) ⊎ ((mode ≡ eventual) × (t ≡ payment_reserved))
      → process d event p mode (fresh db m) ≡ (err (violation (unexpected_event t)), fresh db m)
  unfolding process
  process_unexpected mode t h k = ground (arith, h, k)
