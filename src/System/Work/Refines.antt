-- ===== src/System/Work/Refines.antt =====
-- The commits of the worker's handlers as steps of the system.
pub mod Polls
use global_ledger_consistenc.Base.{
  ℕ, String, Bool, true, false, ◌≡◌, refl, inl, inr, Option, none, some, List, [], ◌∷◌, arith, ◌==◌,
  Option-cases, Bool-cases, ◌⊎◌, ◌≢◌, subst, sym, ◌∙◌,
}
use global_ledger_consistenc.Int.{ℤ, ltb_ℤ, ◌≤ℤ◌}
use global_ledger_consistenc.Table.{get, modify}
use global_ledger_consistenc.Contracts.{
  ConsistencyMode, strong, hybrid, eventual, OutboxEventType, payment_reserved, payment_requested,
  type-cases,
}
use global_ledger_consistenc.Orm.{
  Account, Payment, OutboxEvent, Db, account_keyed, payment_keyed, event_keyed,
}
use global_ledger_consistenc.Orm.Flush.{flush}
use global_ledger_consistenc.Externals.{Externals}
use global_ledger_consistenc.Session.{Session, Action, Result, ok, err}
use global_ledger_consistenc.Session.Transaction.{Conditions, begin, leave}
use global_ledger_consistenc.Session.Entries.{EntryDraws, debit_entry, credit_entry}
use global_ledger_consistenc.Payments.Strategies.{debit_available, credit_available}
use global_ledger_consistenc.Worker.{Raised, Metrics, WorkerAction, exception}
use global_ledger_consistenc.Worker.Payload.{EventPayload, parse_payload}
use global_ledger_consistenc.Worker.Handlers.{
  is_settled, with_status, debit_reserved, settle_reserved, settle_requested, handle_hybrid_event,
  handle_eventual_event, process,
}
use global_ledger_consistenc.Worker.Outbox.{mark_processed, in_event}
use global_ledger_consistenc.Worker.Processor.{unit_of_work, open_session}
use global_ledger_consistenc.System.Effects.{move, settle, turn_down}
use global_ledger_consistenc.System.Steps.{
  Reach, here, next, Step, IsOpen, reserved_settled, request_settled, request_rejected, IsRepeated,
  redelivered, dropped, Reach-trans,
}
use global_ledger_consistenc.System.Intake.{fresh}
use global_ledger_consistenc.System.Intake.Commits.{
  OthersReach, leave-Reach, leave_err, begin-Reach, flush-nil, not-ltb-le,
}
use global_ledger_consistenc.System.Work.{
  applied, already, settle_missing, settle_reserved_ok, settle_reserved_short, settle_requested_ok,
  settle_requested_short, flush_entries, handlers_no_payment, handlers_settled, handlers_open,
  process_hybrid_reserved, process_eventual_requested, process_unexpected,
}

-- The unit of work that ends so has made a run.
abbrev pub Lands :
    {A : Type 0} → Externals → Conditions → Db → Result Raised A × Session Metrics → Type 0
Lands lib c db out = Reach lib db (leave exception exception c out).1.committed

pub err-Lands :
    {lib : Externals} (A : Type 0) (c : Conditions) (e : Raised) (s : Session Metrics) {db : Db}
    → s.committed ≡ db
    → Lands {A = A} lib c db (err e, s)
err-Lands {lib} A c e s {db} h =
    subst (Reach lib db) (sym (leave_err A exception exception c e s ∙ h)) here

module _ {lib : Externals} {A : Type 0} (c : Conditions) where
  -- Nothing was added: the working copy is committed.
  pub ok-Lands :
      (x : A) (db db' : Db) (m : Metrics)
      → Reach lib db db'
      → Lands lib c db (ok x, record { committed = db; db = db'; pending = []; metrics = m })
  ok-Lands x db db' m r =
      leave-Reach exception exception c x _ db here
        λ db'' e. subst (Reach lib db) (flush-nil db' db'' e) r

module _ (lib : Externals) (c : Conditions) (d : EntryDraws) (event : OutboxEvent)
    (p : EventPayload) (db : Db) (m : Metrics) (loaded : get event.id db.outbox_events ≡ some event)
    (parsed : parse_payload lib event.payload_json ≡ ok p) where
  applied-Lands :
      (pay : Payment) (f : ℤ → Account → Account)
      → Step lib db (settle d event p pay f db)
      → Lands lib c db (ok tt, applied d event p pay db m f)
  applied-Lands pay f st = leave-Reach exception exception c tt _ db here λ db' e.
      subst (Reach lib db)
        (sym (
          flush_entries
            (debit_entry d p.payment_id p.source_account_id p.destination_account_id p.amount_cents)
            (credit_entry d p.payment_id p.source_account_id p.destination_account_id
              p.amount_cents)
            (applied d event p pay db m f).db db' e))
        (next here st)

  module _ (pay : Payment) (opened : IsOpen lib event p pay db) where
    reserved-Lands :
        event.event_type ≡ payment_reserved
        → Lands lib c db (settle_reserved d event p pay (fresh db m))
    reserved-Lands type = elim (Option-cases (get p.source_account_id db.accounts)) [
      | inl ha ↦
          subst (Lands lib c db) (sym (settle_missing d event p pay db m (inl ha)).0)
            (err-Lands (Unit {0}) c _ _ refl)
      | inr (a, ha) ↦ elim (Option-cases (get p.destination_account_id db.accounts)) [
        | inl hb ↦
            subst (Lands lib c db) (sym (settle_missing d event p pay db m (inr hb)).0)
              (err-Lands (Unit {0}) c _ _ refl)
        | inr (b, hb) ↦ elim (Bool-cases (ltb_ℤ a.reserved_balance_cents p.amount_cents)) [
          | inl h ↦
              subst (Lands lib c db) (sym (settle_reserved_short d event p pay db m a b ha hb h))
                (err-Lands (Unit {0}) c _ _ refl)
          | inr h ↦
              subst (Lands lib c db) (sym (settle_reserved_ok d event p pay db m a b ha hb h)) (
                applied-Lands pay debit_reserved (
                  reserved_settled d event p pay a b db type opened ha hb
                    (not-ltb-le a.reserved_balance_cents p.amount_cents h)))
        ]
      ]
    ]

    requested-Lands :
        event.event_type ≡ payment_requested
        → Lands lib c db (settle_requested d event p pay (fresh db m))
    requested-Lands type = elim (Option-cases (get p.source_account_id db.accounts)) [
      | inl ha ↦
          subst (Lands lib c db) (sym (settle_missing d event p pay db m (inl ha)).1)
            (err-Lands (Unit {0}) c _ _ refl)
      | inr (a, ha) ↦ elim (Option-cases (get p.destination_account_id db.accounts)) [
        | inl hb ↦
            subst (Lands lib c db) (sym (settle_missing d event p pay db m (inr hb)).1)
              (err-Lands (Unit {0}) c _ _ refl)
        | inr (b, hb) ↦ elim (Bool-cases (ltb_ℤ a.available_balance_cents p.amount_cents)) [
          | inl h ↦
              subst (Lands lib c db) (sym (settle_requested_short d event p pay db m a b ha hb h)) (
                ok-Lands c tt db (turn_down event pay db) _
                  (next here (request_rejected event p pay a db type opened ha h)))
          | inr h ↦
              subst (Lands lib c db) (sym (settle_requested_ok d event p pay db m a b ha hb h)) (
                applied-Lands pay debit_available (
                  request_settled d event p pay a b db type opened ha hb
                    (not-ltb-le a.available_balance_cents p.amount_cents h)))
        ]
      ]
    ]

  already-Lands :
      (pay : Payment)
      → get p.payment_id db.payments ≡ some pay
      → is_settled pay.status ≡ true
      → Lands lib c db (ok tt, already d event p db m)
  already-Lands pay h k = ok-Lands c tt db _ m (
      next here (
        redelivered event p pay db
          (record { loaded = loaded; parsed = parsed; found = h; settled = k })))

  hybrid-Lands :
      event.event_type ≡ payment_reserved
      → Lands lib c db (handle_hybrid_event d event p (fresh db m))
  hybrid-Lands type = elim (Option-cases (get p.payment_id db.payments)) [
    | inl h ↦
        subst (Lands lib c db) (sym (handlers_no_payment d event p db m h).0)
          (err-Lands (Unit {0}) c _ _ refl)
    | inr (pay, h) ↦ elim (Bool-cases (is_settled pay.status)) [
      | inl k ↦
          subst (Lands lib c db) (sym (handlers_settled d event p db m pay h k).0)
            (already-Lands pay h k)
      | inr k ↦ subst (Lands lib c db) (sym (handlers_open d event p db m pay h k).0) (
          reserved-Lands pay (record { loaded = loaded; parsed = parsed; found = h; unsettled = k })
            type)
    ]
  ]

  eventual-Lands :
      event.event_type ≡ payment_requested
      → Lands lib c db (handle_eventual_event d event p (fresh db m))
  eventual-Lands type = elim (Option-cases (get p.payment_id db.payments)) [
    | inl h ↦
        subst (Lands lib c db) (sym (handlers_no_payment d event p db m h).1)
          (err-Lands (Unit {0}) c _ _ refl)
    | inr (pay, h) ↦ elim (Bool-cases (is_settled pay.status)) [
      | inl k ↦
          subst (Lands lib c db) (sym (handlers_settled d event p db m pay h k).1)
            (already-Lands pay h k)
      | inr k ↦ subst (Lands lib c db) (sym (handlers_open d event p db m pay h k).1) (
          requested-Lands pay
            (record { loaded = loaded; parsed = parsed; found = h; unsettled = k }) type)
    ]
  ]

  -- Whatever the mode, processing an event ends in a step or in an exception.
  pub process-Lands :
      (mode : ConsistencyMode) → Lands lib c db (process d event p mode (fresh db m))
  unfolding process
  process-Lands strong = ok-Lands c tt db _ m (next here (dropped event db loaded))
  process-Lands hybrid = elim (type-cases event.event_type) [
    | inl t ↦
        subst (Lands lib c db) (sym (process_hybrid_reserved d event p db m t)) (hybrid-Lands t)
    | inr t ↦
        subst (Lands lib c db)
          (sym (process_unexpected d event p db m hybrid payment_requested t (inl (refl, refl))))
          (err-Lands (Unit {0}) c _ _ refl)
  ]
  process-Lands eventual = elim (type-cases event.event_type) [
    | inl t ↦
        subst (Lands lib c db)
          (sym (process_unexpected d event p db m eventual payment_reserved t (inr (refl, refl))))
          (err-Lands (Unit {0}) c _ _ refl)
    | inr t ↦
        subst (Lands lib c db) (sym (process_eventual_requested d event p db m t))
          (eventual-Lands t)
  ]

pub unit-Reach :
    {lib : Externals} {A : Type 0} (c : Conditions) (body : WorkerAction A) (s : Session Metrics)
    → OthersReach lib c
    → Lands lib c (c.others s.committed) (body (fresh (c.others s.committed) s.metrics))
    → Reach lib s.committed (unit_of_work c body s).1.committed
unfolding unit_of_work
unit-Reach c body s calm h =
    Reach-trans (calm s.committed)
      (begin-Reach exception exception c body (fresh (c.others s.committed) s.metrics) here h)
