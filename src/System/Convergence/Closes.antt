-- ===== src/System/Convergence/Closes.antt =====
-- What processing an event, of services/ledger-worker's mode_strategies.py, leaves of its payment.
use global_ledger_consistenc.Base.{
  String, true, ◌≡◌, ◌≢◌, refl, sym, subst, some, arith, eq_refl, Bool-cases, Option-cases, inl,
  inr,
}
use global_ledger_consistenc.Int.{ltb_ℤ}
use global_ledger_consistenc.Table.{get, modify, get-modify, key_of-get}
use global_ledger_consistenc.Contracts.{
  ConsistencyMode, strong, hybrid, eventual, PaymentStatus, completed, rejected, payment_reserved,
  payment_requested, type-cases,
}
use global_ledger_consistenc.Orm.{Payment, OutboxEvent, Db, account_keyed, payment_keyed}
use global_ledger_consistenc.Session.{Session, Result, ok, err}
use global_ledger_consistenc.Session.Entries.{EntryDraws}
use global_ledger_consistenc.Worker.{Raised, Metrics}
use global_ledger_consistenc.Worker.Payload.{EventPayload}
use global_ledger_consistenc.Worker.Handlers.{
  is_settled, with_status, process, settle_reserved, settle_requested, handle_hybrid_event,
  handle_eventual_event,
}
use global_ledger_consistenc.System.Intake.{fresh}
use global_ledger_consistenc.System.Work.{
  settle_missing, settle_reserved_ok, settle_reserved_short, settle_requested_ok,
  settle_requested_short, handlers_no_payment, handlers_settled, handlers_open,
  process_hybrid_reserved, process_eventual_requested, process_unexpected,
}

-- The payment is completed or rejected.
abbrev pub SettledIn : String → Db → Type 0
SettledIn id db = (p : Payment) × (get id db.payments ≡ some p) × (is_settled p.status ≡ true)

-- Nothing was raised, and then the payment is settled.
abbrev pub IsClosing : {A : Type 0} → String → Result Raised A × Session Metrics → Type 0
IsClosing id (ok x, s) = SettledIn id s.db
IsClosing id (err e, s) = Unit

SettledIn-modify :
    (id : String) (pay : Payment) (status : PaymentStatus) (db : Db)
    → get id db.payments ≡ some pay
    → is_settled status ≡ true
    → SettledIn id (record db { payments = modify pay.id (with_status status) db.payments })
SettledIn-modify id pay status db found settled = (
  with_status status pay,
  ground (
    arith,
    found,
    key_of-get id pay db.payments found,
    eq_refl id,
    get-modify pay.id id (with_status status) db.payments (λ x. refl),
  ),
  settled,
)

module _ (d : EntryDraws) (event : OutboxEvent) (q : EventPayload) (db : Db) (m : Metrics) where
  module _ (pay : Payment) (found : get q.payment_id db.payments ≡ some pay) where
    reserved-IsClosing : IsClosing q.payment_id (settle_reserved d event q pay (fresh db m))
    reserved-IsClosing = elim (Option-cases (get q.source_account_id db.accounts)) [
      | inl ha ↦
          subst (IsClosing q.payment_id) (sym (settle_missing d event q pay db m (inl ha)).0) tt
      | inr (a, ha) ↦ elim (Option-cases (get q.destination_account_id db.accounts)) [
        | inl hb ↦
            subst (IsClosing q.payment_id) (sym (settle_missing d event q pay db m (inr hb)).0) tt
        | inr (b, hb) ↦ elim (Bool-cases (ltb_ℤ a.reserved_balance_cents q.amount_cents)) [
          | inl h ↦
              subst (IsClosing q.payment_id)
                (sym (settle_reserved_short d event q pay db m a b ha hb h)) tt
          | inr h ↦
              subst (IsClosing q.payment_id)
                (sym (settle_reserved_ok d event q pay db m a b ha hb h))
                (SettledIn-modify q.payment_id pay completed db found refl)
        ]
      ]
    ]

    requested-IsClosing : IsClosing q.payment_id (settle_requested d event q pay (fresh db m))
    requested-IsClosing = elim (Option-cases (get q.source_account_id db.accounts)) [
      | inl ha ↦
          subst (IsClosing q.payment_id) (sym (settle_missing d event q pay db m (inl ha)).1) tt
      | inr (a, ha) ↦ elim (Option-cases (get q.destination_account_id db.accounts)) [
        | inl hb ↦
            subst (IsClosing q.payment_id) (sym (settle_missing d event q pay db m (inr hb)).1) tt
        | inr (b, hb) ↦ elim (Bool-cases (ltb_ℤ a.available_balance_cents q.amount_cents)) [
          | inl h ↦
              subst (IsClosing q.payment_id)
                (sym (settle_requested_short d event q pay db m a b ha hb h))
                (SettledIn-modify q.payment_id pay rejected db found refl)
          | inr h ↦
              subst (IsClosing q.payment_id)
                (sym (settle_requested_ok d event q pay db m a b ha hb h))
                (SettledIn-modify q.payment_id pay completed db found refl)
        ]
      ]
    ]

  handlers-IsClosing :
      IsClosing q.payment_id (handle_hybrid_event d event q (fresh db m))
      × IsClosing q.payment_id (handle_eventual_event d event q (fresh db m))
  handlers-IsClosing = elim (Option-cases (get q.payment_id db.payments)) [
    | inl h ↦
        let e = handlers_no_payment d event q db m h in
        (subst (IsClosing q.payment_id) (sym e.0) tt, subst (IsClosing q.payment_id) (sym e.1) tt)
    | inr (pay, h) ↦ elim (Bool-cases (is_settled pay.status)) [
      | inl k ↦
          let e = handlers_settled d event q db m pay h k in
          (
            subst (IsClosing q.payment_id) (sym e.0) (pay, h, k),
            subst (IsClosing q.payment_id) (sym e.1) (pay, h, k),
          )
      | inr k ↦
          let e = handlers_open d event q db m pay h k in
          (
            subst (IsClosing q.payment_id) (sym e.0) (reserved-IsClosing pay h),
            subst (IsClosing q.payment_id) (sym e.1) (requested-IsClosing pay h),
          )
    ]
  ]

  -- In hybrid and in eventual mode, processing an event either raises or leaves the event's payment
  -- completed or rejected: no event is closed with its payment still open.
  pub process-IsClosing :
      (mode : ConsistencyMode)
      → mode ≢ strong
      → IsClosing q.payment_id (process d event q mode (fresh db m))
  process-IsClosing strong weak = absurd (weak refl)
  process-IsClosing hybrid weak = elim (type-cases event.event_type) [
    | inl t ↦
        subst (IsClosing q.payment_id) (sym (process_hybrid_reserved d event q db m t))
          handlers-IsClosing.0
    | inr t ↦
        subst (IsClosing q.payment_id)
          (sym (process_unexpected d event q db m hybrid payment_requested t (inl (refl, refl)))) tt
  ]
  process-IsClosing eventual weak = elim (type-cases event.event_type) [
    | inl t ↦
        subst (IsClosing q.payment_id)
          (sym (process_unexpected d event q db m eventual payment_reserved t (inr (refl, refl))))
          tt
    | inr t ↦
        subst (IsClosing q.payment_id) (sym (process_eventual_requested d event q db m t))
          handlers-IsClosing.1
  ]
