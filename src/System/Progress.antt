-- ===== src/System/Progress.antt =====
-- What one undisturbed processing of an event by processor.py makes of the event.
pub mod Attempts
pub mod Ends
use global_ledger_consistenc.Base.{
  ℕ, suc, ◌+◌, ◌<◌, String, Bool, true, false, ◌≡◌, refl, sym, subst, ap, ◌∙◌, Option, none, some,
  List, [], ◌∷◌, arith, ◌==◌, eq_refl, inl, inr, ◌⊎◌, Bool-cases, Option-cases, if◌then◌else◌,
}
use global_ledger_consistenc.Int.{ℤ, ltb_ℤ}
use global_ledger_consistenc.Table.{get, modify, get-modify, key_of-get}
use global_ledger_consistenc.Contracts.{
  ConsistencyMode, strong, hybrid, eventual, OutboxStatus, processed, dead, pending,
  OutboxEventType, payment_reserved, payment_requested, type-cases,
}
use global_ledger_consistenc.Orm.{
  Account, Payment, OutboxEvent, Db, account_keyed, payment_keyed, event_keyed,
}
use global_ledger_consistenc.Orm.Flush.{flush}
use global_ledger_consistenc.Externals.{Externals}
use global_ledger_consistenc.Session.{Session, Result, ok, err, rollback}
use global_ledger_consistenc.Session.Transaction.{Conditions, leave}
use global_ledger_consistenc.Session.Entries.{EntryDraws, debit_entry, credit_entry}
use global_ledger_consistenc.Worker.{Raised, Metrics, FailureInjectorPort, exception}
use global_ledger_consistenc.Worker.Payload.{EventPayload, parse_payload}
use global_ledger_consistenc.Worker.Outbox.{mark_processed}
use global_ledger_consistenc.Worker.Handlers.{
  is_settled, debit_reserved, settle_reserved, settle_requested, handle_hybrid_event,
  handle_eventual_event, process,
}
use global_ledger_consistenc.Payments.Strategies.{debit_available}
use global_ledger_consistenc.System.Intake.{fresh}
use global_ledger_consistenc.System.Effects.{turn_down}
use global_ledger_consistenc.System.Intake.Commits.{if_elim, flush-nil}
use global_ledger_consistenc.System.Work.{
  applied, already, settle_missing, settle_reserved_ok, settle_reserved_short, settle_requested_ok,
  settle_requested_short, flush_entries, handlers_no_payment, handlers_settled, handlers_open,
  process_hybrid_reserved, process_eventual_requested, process_unexpected,
}

module _ (event : OutboxEvent) (db : Db) where
  -- A body that raises leaves what was committed; one that ends has marked the event.
  abbrev pub Marks : Result Raised (Unit {0}) × Session Metrics → Type 0
  Marks (err e, s) = s.committed ≡ db
  Marks (ok done, s) =
      (s.committed ≡ db)
      × ((db' : Db)
          → flush s.pending s.db ≡ some db'
          → get event.id db'.outbox_events ≡ some (mark_processed event))

  -- The same of the unit of work as a whole.
  abbrev pub Marked : Result Raised (Unit {0}) × Session Metrics → Type 0
  Marked (err e, s) = s.committed ≡ db
  Marked (ok done, s) = get event.id s.committed.outbox_events ≡ some (mark_processed event)

  pub leave-Marked :
      (c : Conditions) (r : Result Raised (Unit {0})) (s : Session Metrics)
      → Marks (r, s)
      → Marked (leave exception exception c (r, s))
  unfolding leave rollback
  leave-Marked c (err e) s h = h
  leave-Marked c (ok done) s h = elim (Option-cases (flush s.pending s.db)) [
    | inl e ↦ rw (e, leave) h.0
    | inr (db', e) ↦ rw (e, leave) (if_elim Marked c.commits (h.1 db' e) h.0)
  ]

  found_marked :
      get event.id db.outbox_events ≡ some event
      → get event.id (modify event.id mark_processed db.outbox_events) ≡ some (mark_processed event)
  found_marked h = ground (
    arith,
    h,
    eq_refl event.id,
    get-modify event.id event.id mark_processed db.outbox_events
        (λ e. unfold mark_processed in refl),
  )

module _ (d : EntryDraws) (event : OutboxEvent) (p : EventPayload) (db : Db) (m : Metrics)
    (loaded : get event.id db.outbox_events ≡ some event) where
  applied-Marks :
      (pay : Payment) (f : ℤ → Account → Account)
      → Marks event db (ok tt, applied d event p pay db m f)
  applied-Marks pay f = (
    refl,
    λ db' e.
        let same =
          flush_entries
            (debit_entry d p.payment_id p.source_account_id p.destination_account_id p.amount_cents)
            (credit_entry d p.payment_id p.source_account_id p.destination_account_id
              p.amount_cents)
            (applied d event p pay db m f).db db' e in
        subst (λ (x : Db). get event.id x.outbox_events ≡ some (mark_processed event)) (sym same)
          (found_marked event db loaded),
  )

  already-Marks : Marks event db (ok tt, already d event p db m)
  already-Marks = (
    refl,
    λ db' e.
        subst (λ (x : Db). get event.id x.outbox_events ≡ some (mark_processed event))
          (flush-nil (already d event p db m).db db' e) (found_marked event db loaded),
  )

  module _ (pay : Payment) where
    reserved-Marks : Marks event db (settle_reserved d event p pay (fresh db m))
    reserved-Marks = elim (Option-cases (get p.source_account_id db.accounts)) [
      | inl ha ↦ subst (Marks event db) (sym (settle_missing d event p pay db m (inl ha)).0) refl
      | inr (a, ha) ↦ elim (Option-cases (get p.destination_account_id db.accounts)) [
        | inl hb ↦ subst (Marks event db) (sym (settle_missing d event p pay db m (inr hb)).0) refl
        | inr (b, hb) ↦ elim (Bool-cases (ltb_ℤ a.reserved_balance_cents p.amount_cents)) [
          | inl h ↦
              subst (Marks event db) (sym (settle_reserved_short d event p pay db m a b ha hb h))
                refl
          | inr h ↦
              subst (Marks event db) (sym (settle_reserved_ok d event p pay db m a b ha hb h))
                (applied-Marks pay debit_reserved)
        ]
      ]
    ]

    requested-Marks : Marks event db (settle_requested d event p pay (fresh db m))
    requested-Marks = elim (Option-cases (get p.source_account_id db.accounts)) [
      | inl ha ↦ subst (Marks event db) (sym (settle_missing d event p pay db m (inl ha)).1) refl
      | inr (a, ha) ↦ elim (Option-cases (get p.destination_account_id db.accounts)) [
        | inl hb ↦ subst (Marks event db) (sym (settle_missing d event p pay db m (inr hb)).1) refl
        | inr (b, hb) ↦ elim (Bool-cases (ltb_ℤ a.available_balance_cents p.amount_cents)) [
          | inl h ↦
              subst (Marks event db) (sym (settle_requested_short d event p pay db m a b ha hb h)) (
                refl,
                λ db' e.
                    subst (λ (x : Db). get event.id x.outbox_events ≡ some (mark_processed event))
                      (flush-nil (turn_down event pay db) db' e) (found_marked event db loaded),
              )
          | inr h ↦
              subst (Marks event db) (sym (settle_requested_ok d event p pay db m a b ha hb h))
                (applied-Marks pay debit_available)
        ]
      ]
    ]

  hybrid-Marks : Marks event db (handle_hybrid_event d event p (fresh db m))
  hybrid-Marks = elim (Option-cases (get p.payment_id db.payments)) [
    | inl h ↦ subst (Marks event db) (sym (handlers_no_payment d event p db m h).0) refl
    | inr (pay, h) ↦ elim (Bool-cases (is_settled pay.status)) [
      | inl k ↦
          subst (Marks event db) (sym (handlers_settled d event p db m pay h k).0) already-Marks
      | inr k ↦
          subst (Marks event db) (sym (handlers_open d event p db m pay h k).0) (reserved-Marks pay)
    ]
  ]

  eventual-Marks : Marks event db (handle_eventual_event d event p (fresh db m))
  eventual-Marks = elim (Option-cases (get p.payment_id db.payments)) [
    | inl h ↦ subst (Marks event db) (sym (handlers_no_payment d event p db m h).1) refl
    | inr (pay, h) ↦ elim (Bool-cases (is_settled pay.status)) [
      | inl k ↦
          subst (Marks event db) (sym (handlers_settled d event p db m pay h k).1) already-Marks
      | inr k ↦
          subst (Marks event db) (sym (handlers_open d event p db m pay h k).1)
            (requested-Marks pay)
    ]
  ]

  -- Whatever the mode, processing raises or marks the event.
  pub process-Marks :
      (mode : ConsistencyMode) → Marks event db (process d event p mode (fresh db m))
  unfolding process
  process-Marks strong = already-Marks
  process-Marks hybrid = elim (type-cases event.event_type) [
    | inl t ↦ subst (Marks event db) (sym (process_hybrid_reserved d event p db m t)) hybrid-Marks
    | inr t ↦
        subst (Marks event db)
          (sym (process_unexpected d event p db m hybrid payment_requested t (inl (refl, refl))))
          refl
  ]
  process-Marks eventual = elim (type-cases event.event_type) [
    | inl t ↦
        subst (Marks event db)
          (sym (process_unexpected d event p db m eventual payment_reserved t (inr (refl, refl))))
          refl
    | inr t ↦
        subst (Marks event db) (sym (process_eventual_requested d event p db m t)) eventual-Marks
  ]
